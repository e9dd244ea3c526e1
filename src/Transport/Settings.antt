-- ===== src/Transport/Settings.antt =====
-- The options of the transport.
use qzmq.Common.{◌≡◌, Bool, ◌||◌, text_eq, if◌then◌else◌, ok, arith}
use qzmq.Common.Text.{Text, text}
use qzmq.Socket.{Value}
use qzmq.Transport.Types.{Transport}
use qzmq.Transport.Calls.{set_transport_option, get_transport_option}

-- The names that `GetOption` answers on its own.
abbrev pub is_reserved : Text → Bool
is_reserved name = text_eq name (text "backend") || text_eq name (text "socket_count")

-- An option that was set is read back, and every other one is as before; the two reserved names are
-- never shadowed.
pub get_transport_option-set_transport_option :
    (name read : Text) (value : Value) (t : Transport)
    → (get_transport_option read (set_transport_option name value t).1).0 ≡ (
        if is_reserved read
        then (get_transport_option read t).0
        else if text_eq read name
        then ok value
        else (get_transport_option read t).0)
unfolding get_transport_option set_transport_option
get_transport_option-set_transport_option name read value t = ground arith
