-- ===== src/Socket/Tests.antt =====
-- Runs of a socket, and the theorems at concrete requests.
use qzmq.Common.{List, [], ◌∷◌, map, ◌≡◌, refl, false, ok, ◌+◌}
use qzmq.Common.Text.{text}
use qzmq.Common.Int.{pos}
use qzmq.Options.{default_options, dealer, xsub}
use qzmq.Socket.Types.{ZmqSocket, new_socket_metrics, int_value}
use qzmq.Socket.Calls.{close, new_go_socket}
use qzmq.Socket.Settings.{get_option, set_option}
use qzmq.Socket.Requests.{
  Request, bind_to, connect_to, send_one, send_many, recv_one, recv_many, close_it, get_of, play,
  subscribe_to,
}
use qzmq.Socket.Closed.{refusal, play-close}
use qzmq.Socket.Counting.{Counted, counting}
use qzmq.Socket.Accounting.{
  Shows, Took, control_messages, control_bytes, total, messages_out, bytes_out, bytes_in,
  play-new_go_socket,
}
use qzmq.Socket.Forgotten.{get_option-set_option}
use qzmq.Socket.Sample.{Queue, loopback}

abbrev fresh_dealer : ZmqSocket Queue
fresh_dealer = record {
  socket = [];
  socket_type = dealer;
  opts = default_options;
  metrics = new_socket_metrics;
  closed = false;
}

abbrev counted_xsub : ZmqSocket (Counted Queue)
counted_xsub = record {
  socket = record { state = []; taken_messages = 0; taken_bytes = 0 };
  socket_type = xsub;
  opts = default_options;
  metrics = new_socket_metrics;
  closed = false;
}

counted_xsub_made : new_go_socket (counting loopback) xsub default_options ≡ ok counted_xsub
unfolding new_go_socket
counted_xsub_made = refl

-- A subscription and two messages out, some of them in, and a failed call.
abbrev traffic : List Request
traffic =
    bind_to (text "tcp://*:1")
    ∷ subscribe_to (text "prices")
    ∷ send_one (1 ∷ 2 ∷ 3 ∷ [])
    ∷ connect_to (text "x")
    ∷ send_many ((4 ∷ []) ∷ (5 ∷ 6 ∷ []) ∷ [])
    ∷ recv_many
    ∷ recv_one
    ∷ []

play-new_go_socket_example :
    let (log, z) = play (counting loopback) traffic counted_xsub in
    Shows z.metrics (total messages_out log) (total bytes_out log) (total bytes_in log)
    × Took xsub z
        (total messages_out log + total (control_messages xsub) log)
        (total bytes_out log + total (control_bytes xsub) log)
play-new_go_socket_example =
    play-new_go_socket loopback xsub default_options traffic counted_xsub_made

abbrev late : List Request
late = send_one (7 ∷ []) ∷ close_it ∷ get_of (text "type") ∷ recv_one ∷ []

play-close_example :
    (play loopback late (close loopback fresh_dealer).1).0 ≡ map (λ r. (r, refusal r)) late
play-close_example = play-close loopback late fresh_dealer

get_option-set_option_example :
    (get_option loopback
      (text "sndhwm")
      (set_option loopback (text "sndhwm") (int_value (pos 5)) fresh_dealer).1).0
    ≡ (get_option loopback (text "sndhwm") fresh_dealer).0
get_option-set_option_example =
    get_option-set_option loopback (text "sndhwm") (text "sndhwm") (int_value (pos 5)) fresh_dealer
