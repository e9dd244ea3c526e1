-- ===== src/Socket/Forgotten.antt =====
-- The options of a socket.
use qzmq.Common.{◌≡◌, arith}
use qzmq.Common.Text.{Text}
use qzmq.Socket.Types.{ZmqLibrary, ZmqSocket, Value}
use qzmq.Socket.Calls.{on_library}
use qzmq.Socket.Settings.{set_option, get_option}

-- No option is remembered: whatever `SetOption` is given, and however it ends, `GetOption` answers
-- for every name as it did before.
pub get_option-set_option :
    {S : Type 0} (zmq : ZmqLibrary S) (name read : Text) (value : Value) (z : ZmqSocket S)
    → (get_option zmq read (set_option zmq name value z).1).0 ≡ (get_option zmq read z).0
unfolding get_option set_option on_library
get_option-set_option zmq name read value z = ground arith
