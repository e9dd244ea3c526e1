-- ===== src/Socket/Calls.antt =====
-- backend.go: making, binding, sending, receiving and closing.
use qzmq.Common.{
  ℕ, ◌+◌, ◌%◌, ◌^◌, true, false, List, [], ◌∷◌, length, Option, none, some, Outcome, Error, ok, err,
  panic, Action, ◌>>=◌, ◌>>◌, pure, fail_if, modify, not_connected, unsupported_socket_type,
  failed_to_create_socket,
}
use qzmq.Common.Text.{Text}
use qzmq.Options.{
  Options, SocketType, req, rep, dealer, router, pub_socket, sub, xpub, xsub, push, pull, pair,
  stream,
}
use qzmq.Socket.Types.{
  ZmqLibrary, ZmqConstructor, ZmqSocket, SocketMetrics, new_socket_metrics, new_req, new_rep,
  new_pub, new_sub, new_xpub, new_xsub, new_push, new_pull, new_pair, new_dealer, new_router,
  new_stream,
}

-- A uint64 after `+= n`.
abbrev pub add64 : ℕ → ℕ → ℕ
add64 m n = (m + n) % 2 ^ 64

-- The `switch` of `newGoSocket`.
abbrev pub constructor_of : SocketType → Outcome ZmqConstructor
constructor_of req = ok new_req
constructor_of rep = ok new_rep
constructor_of pub_socket = ok new_pub
constructor_of sub = ok new_sub
constructor_of xpub = ok new_xpub
constructor_of xsub = ok new_xsub
constructor_of push = ok new_push
constructor_of pull = ok new_pull
constructor_of pair = ok new_pair
constructor_of dealer = ok new_dealer
constructor_of router = ok new_router
constructor_of stream = ok new_stream
constructor_of (SocketType.other n) = err unsupported_socket_type

-- The metrics after a message of the given frames went out, and after one came in. Each frame's
-- length is added on its own.
abbrev pub add_lengths : ℕ → List (List ℕ) → ℕ
add_lengths n [] = n
add_lengths n (p ∷ ps) = add_lengths (add64 n (length p)) ps

abbrev pub count_sent : List (List ℕ) → SocketMetrics → SocketMetrics
count_sent parts m = record m {
  messages_sent = add64 m.messages_sent 1;
  bytes_sent = add_lengths m.bytes_sent parts;
}

abbrev pub count_received : List (List ℕ) → SocketMetrics → SocketMetrics
count_received parts m = record m {
  messages_received = add64 m.messages_received 1;
  bytes_received = add_lengths m.bytes_received parts;
}

module _ {S : Type 0} where
  -- A call of the library that may report an error.
  unfoldable pub on_library : (S → Option Error × S) → Action (ZmqSocket S) (Unit {0})
  on_library f z =
      let (failure, s) = f z.socket in
      elim failure [
        | none ↦ (ok tt, record z { socket = s })
        | some e ↦ (err e, record z { socket = s })
      ]

  abbrev pub check_open : Action (ZmqSocket S) (Unit {0})
  check_open z = fail_if z.closed not_connected z

module _ {S : Type 0} (zmq : ZmqLibrary S) where
  unfoldable pub new_go_socket : SocketType → Options → Outcome (ZmqSocket S)
  new_go_socket socket_type opts = elim (constructor_of socket_type) [
    | ok constructor ↦ elim (zmq.make constructor) [
      | none ↦ err failed_to_create_socket
      | some s ↦ ok (record {
        socket = s;
        socket_type = socket_type;
        opts = opts;
        metrics = new_socket_metrics;
        closed = false;
      })
    ]
    | err e ↦ err e
    | panic ↦ panic
  ]

  unfoldable pub bind : Text → Action (ZmqSocket S) (Unit {0})
  bind endpoint = check_open >> on_library (zmq.listen endpoint)

  unfoldable pub connect : Text → Action (ZmqSocket S) (Unit {0})
  connect endpoint = check_open >> on_library (zmq.dial endpoint)

  unfoldable pub send : List ℕ → Action (ZmqSocket S) (Unit {0})
  send content = do
    check_open
    on_library (zmq.send_frames (content ∷ []))
    modify (λ z. record z { metrics = count_sent (content ∷ []) z.metrics })

  unfoldable pub send_multipart : List (List ℕ) → Action (ZmqSocket S) (Unit {0})
  send_multipart parts = do
    check_open
    on_library (zmq.send_frames parts)
    modify (λ z. record z { metrics = count_sent parts z.metrics })

  -- `s.socket.Recv()`.
  unfoldable pub receive : Action (ZmqSocket S) (List (List ℕ))
  receive z = let (r, s) = zmq.recv_frames z.socket in (r, record z { socket = s })

  -- The first frame; a message without frames is returned as no bytes and is not counted.
  unfoldable pub first_frame : List (List ℕ) → Action (ZmqSocket S) (List ℕ)
  first_frame [] z = (ok [], z)
  first_frame (content ∷ rest) z =
      (ok content, record z { metrics = count_received (content ∷ []) z.metrics })

  unfoldable pub recv : Action (ZmqSocket S) (List ℕ)
  recv = do check_open; frames ← receive; first_frame frames

  unfoldable pub recv_multipart : Action (ZmqSocket S) (List (List ℕ))
  recv_multipart = do
    check_open
    frames ← receive
    modify (λ z. record z { metrics = count_received frames z.metrics })
    pure frames

  -- The context is cancelled before the lock is taken, also where the socket is closed.
  unfoldable pub close : Action (ZmqSocket S) (Unit {0})
  close z =
      let cancelled = record z { socket = zmq.cancel_context z.socket } in
      elim cancelled.closed [
        | true ↦ (ok tt, cancelled)
        | false ↦ on_library zmq.close_zmq (record cancelled { closed = true })
      ]

-- `GetMetrics`, a copy.
abbrev pub get_metrics : {S : Type 0} → ZmqSocket S → SocketMetrics
get_metrics z = z.metrics
