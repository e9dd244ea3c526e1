-- ===== src/Transport/Tests.antt =====
-- Runs of a transport, and the theorems at one of them.
use qzmq.Common.{[], ◌∷◌, All, ◌≡◌, refl, true, false, ok, err, transport_closed}
use qzmq.Common.Text.{text}
use qzmq.Common.Int.{pos}
use qzmq.Options.{
  default_options, backend_go, dealer, rep, fill_rotation, check_suite, validate_options,
}
use qzmq.Options.Laws.{IsFilled, IsQuantumSafe}
use qzmq.Socket.{int_value}
use qzmq.Socket.Requests.{send_one, close_it}
use qzmq.Socket.Sample.{Queue, loopback}
use qzmq.Transport.Types.{Transport, World, zero_stats}
use qzmq.Transport.Calls.{
  new_transport, start_transport, init_backend, new_socket, close_transport, get_transport_option,
  set_transport_option,
}
use qzmq.Transport.Making.{new_transport_sound}
use qzmq.Transport.Settings.{get_transport_option-set_transport_option}
use qzmq.Transport.Shutdown.{Lives, started, made, used, Lives-close_transport, use_socket}

abbrev fresh_transport : Transport
fresh_transport = record {
  opts = default_options;
  backend = backend_go;
  sockets = [];
  stats = zero_stats;
  options = [];
  closed = false;
}

fresh_transport_made : new_transport default_options ≡ ok fresh_transport
unfolding new_transport start_transport init_backend validate_options check_suite default_options
fresh_transport_made = refl

new_transport_sound_example :
    (fresh_transport.backend ≡ backend_go)
    × (fresh_transport.opts
        ≡ record default_options { key_rotation = fill_rotation default_options.key_rotation })
    × IsFilled fresh_transport.opts.key_rotation
    × IsQuantumSafe fresh_transport.opts
new_transport_sound_example = new_transport_sound default_options fresh_transport_made

get_transport_option-set_transport_option_example :
    (get_transport_option
      (text "mtu")
      (set_transport_option (text "mtu") (int_value (pos 9000)) fresh_transport).1).0
    ≡ ok (int_value (pos 9000))
get_transport_option-set_transport_option_example =
    get_transport_option-set_transport_option (text "mtu") (text "mtu") (int_value (pos 9000))
      fresh_transport

-- Two sockets, the first of which its holder uses and closes.
abbrev busy : World Queue
busy =
    let w0 : World Queue = record { transport = fresh_transport; heap = [] } in
    let w1 = (new_socket loopback dealer w0).1 in
    let w2 = (new_socket loopback rep w1).1 in
    let w3 = record w2 { heap = use_socket loopback 0 (send_one (1 ∷ [])) w2.heap } in
    record w3 { heap = use_socket loopback 0 close_it w3.heap }

busy-Lives : Lives loopback busy
busy-Lives = used 0 close_it (
    used 0 (send_one (1 ∷ []))
      (made rep (made dealer (started default_options fresh_transport_made))))

abbrev ended : World Queue
ended = (close_transport loopback busy).1

Lives-close_transport_example :
    All (λ z. z.closed ≡ true) ended.heap
    × (ended.transport.sockets ≡ [])
    × (new_socket loopback dealer ended ≡ (err transport_closed, ended))
Lives-close_transport_example = Lives-close_transport loopback busy dealer busy-Lives
