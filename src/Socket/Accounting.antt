-- ===== src/Socket/Accounting.antt =====
-- The metrics of a socket against the log of its requests.
use qzmq.Common.{
  ℕ, ◌+◌, ◌%◌, ◌^◌, ◌≡◌, ap, ◌∙◌, List, [], ◌∷◌, length, Outcome, Outcome-cases, inl, inr, ok,
  arith, if◌then◌else◌,
}
use qzmq.Options.{Options, SocketType}
use qzmq.Socket.Types.{ZmqLibrary, ZmqSocket, SocketMetrics}
use qzmq.Socket.Calls.{
  bind, connect, send, send_multipart, recv, recv_multipart, close, on_library, receive,
  first_frame, new_go_socket, add_lengths,
}
use qzmq.Socket.Counting.{Counted, counting, total_length}
use qzmq.Socket.Settings.{is_xsub, subscribe, unsubscribe, set_option, get_option}
use qzmq.Socket.Requests.{
  Request, Reply, bytes_reply, frames_reply, bind_to, connect_to, subscribe_to, unsubscribe_from,
  get_of, send_one, send_many, recv_one, recv_many, close_it, set_of, handle, play,
}

-- What one answered request has sent of its caller's data, and what it has handed to its caller.
abbrev pub messages_out : Request × Outcome Reply → ℕ
messages_out (send_one content, ok r) = 1
messages_out (send_many parts, ok r) = 1
messages_out _ = 0

abbrev pub bytes_out : Request × Outcome Reply → ℕ
bytes_out (send_one content, ok r) = length content
bytes_out (send_many parts, ok r) = total_length parts
bytes_out _ = 0

abbrev pub bytes_in : Request × Outcome Reply → ℕ
bytes_in (recv_one, ok (bytes_reply bs)) = length bs
bytes_in (recv_many, ok (frames_reply fs)) = total_length fs
bytes_in _ = 0

-- The messages of its own that it has sent on a socket of the given type: XSUB sends a subscription,
-- and its end, as a message of one byte and the filter.
abbrev pub control_messages : SocketType → Request × Outcome Reply → ℕ
control_messages kind (subscribe_to filter, ok r) = if is_xsub kind then 1 else 0
control_messages kind (unsubscribe_from filter, ok r) = if is_xsub kind then 1 else 0
control_messages kind _ = 0

abbrev pub control_bytes : SocketType → Request × Outcome Reply → ℕ
control_bytes kind (subscribe_to filter, ok r) = if is_xsub kind then 1 + length filter else 0
control_bytes kind (unsubscribe_from filter, ok r) = if is_xsub kind then 1 + length filter else 0
control_bytes kind _ = 0

abbrev pub total : (Request × Outcome Reply → ℕ) → List (Request × Outcome Reply) → ℕ
total f [] = 0
total f (e ∷ es) = f e + total f es

-- The metrics are the given numbers, modulo 2^64.
pub record Shows (m : SocketMetrics) (messages sent received : ℕ) : Type 0 where
  pub shows_messages : m.messages_sent ≡ messages % 2 ^ 64
  pub shows_sent : m.bytes_sent ≡ sent % 2 ^ 64
  pub shows_received : m.bytes_received ≡ received % 2 ^ 64

add_lengths_lem :
    (ps : List (List ℕ)) (n : ℕ) → add_lengths (n % 2 ^ 64) ps ≡ (n + total_length ps) % 2 ^ 64
add_lengths_lem [] n = omega arith
add_lengths_lem (p ∷ ps) n =
    let step : (n % 2 ^ 64 + length p) % 2 ^ 64 ≡ (n + length p) % 2 ^ 64 = omega arith in
    ap (λ k. add_lengths k ps) step ∙ add_lengths_lem ps (n + length p) ∙ omega arith

module _ {S : Type 0} (zmq : ZmqLibrary S) where
  handle-Shows :
      (r : Request) (z : ZmqSocket S) (a b c : ℕ)
      → Shows z.metrics a b c
      → let (answer, z') = handle zmq r z in
        Shows z'.metrics
          (a + messages_out (r, answer))
          (b + bytes_out (r, answer))
          (c + bytes_in (r, answer))
  unfolding handle bind connect subscribe unsubscribe get_option send send_multipart recv
      recv_multipart close set_option on_library receive first_frame
  handle-Shows (bind_to endpoint) z a b c s = ground arith
  handle-Shows (connect_to endpoint) z a b c s = ground arith
  handle-Shows (subscribe_to filter) z a b c s = ground arith
  handle-Shows (unsubscribe_from filter) z a b c s = ground arith
  handle-Shows (get_of name) z a b c s = ground arith
  handle-Shows (send_one content) z a b c s = ground arith
  handle-Shows (send_many parts) z a b c s = ground (arith, add_lengths_lem parts b)
  handle-Shows recv_one z a b c s = ground arith
  handle-Shows recv_many z a b c s = elim (Outcome-cases (zmq.recv_frames z.socket).0) [
    | inl (frames, e) ↦ ground (arith, add_lengths_lem frames c)
    | inr e ↦ ground arith
  ]
  handle-Shows close_it z a b c s = ground arith
  handle-Shows (set_of name value) z a b c s = ground arith

  play-Shows :
      (rs : List Request) (z : ZmqSocket S) (a b c : ℕ)
      → Shows z.metrics a b c
      → let (log, z') = play zmq rs z in
        Shows z'.metrics
          (a + total messages_out log)
          (b + total bytes_out log)
          (c + total bytes_in log)
  play-Shows [] z a b c s = ground arith
  play-Shows (r ∷ rs) z a b c s =
      let (answer, z') = handle zmq r z in
      let rest =
        play-Shows rs z' (a + messages_out (r, answer)) (b + bytes_out (r, answer))
          (c + bytes_in (r, answer)) (handle-Shows r z a b c s) in
      ground (arith, rest)

  fresh-Shows :
      (t : SocketType) (o : Options) {z : ZmqSocket S}
      → new_go_socket zmq t o ≡ ok z
      → Shows z.metrics 0 0 0
  unfolding new_go_socket
  fresh-Shows t o h = ground arith

-- What the library of a socket has accepted.
pub record Took {S : Type 0} (kind : SocketType) (z : ZmqSocket (Counted S)) (messages bytes : ℕ)
    : Type 0 where
  pub same_type : z.socket_type ≡ kind
  pub took_messages : z.socket.taken_messages ≡ messages
  pub took_bytes : z.socket.taken_bytes ≡ bytes

module _ {S : Type 0} (zmq : ZmqLibrary S) (kind : SocketType) where
  handle-Took :
      (r : Request) (z : ZmqSocket (Counted S)) (a b : ℕ)
      → Took kind z a b
      → let (answer, z') = handle (counting zmq) r z in
        Took kind z'
          (a + (messages_out (r, answer) + control_messages kind (r, answer)))
          (b + (bytes_out (r, answer) + control_bytes kind (r, answer)))
  unfolding handle bind connect subscribe unsubscribe get_option send send_multipart recv
      recv_multipart close set_option on_library receive first_frame
  handle-Took (bind_to endpoint) z a b t = ground arith
  handle-Took (connect_to endpoint) z a b t = ground arith
  handle-Took (subscribe_to filter) z a b t = ground arith
  handle-Took (unsubscribe_from filter) z a b t = ground arith
  handle-Took (get_of name) z a b t = ground arith
  handle-Took (send_one content) z a b t = ground arith
  handle-Took (send_many parts) z a b t = ground arith
  handle-Took recv_one z a b t = ground arith
  handle-Took recv_many z a b t = ground arith
  handle-Took close_it z a b t = ground arith
  handle-Took (set_of name value) z a b t = ground arith

  play-Took :
      (rs : List Request) (z : ZmqSocket (Counted S)) (a b : ℕ)
      → Took kind z a b
      → let (log, z') = play (counting zmq) rs z in
        Took kind z'
          (a + (total messages_out log + total (control_messages kind) log))
          (b + (total bytes_out log + total (control_bytes kind) log))
  play-Took [] z a b t = ground arith
  play-Took (r ∷ rs) z a b t =
      let (answer, z') = handle (counting zmq) r z in
      let rest =
        play-Took rs z' (a + (messages_out (r, answer) + control_messages kind (r, answer)))
          (b + (bytes_out (r, answer) + control_bytes kind (r, answer))) (handle-Took r z a b t) in
      ground (arith, rest)

  fresh-Took :
      (o : Options) {z : ZmqSocket (Counted S)}
      → new_go_socket (counting zmq) kind o ≡ ok z
      → Took kind z 0 0
  unfolding new_go_socket
  fresh-Took o h = ground arith

  -- The metrics of a socket are an account of the data that passed through it. After any sequence of
  -- requests to a new socket they show, modulo 2^64, how many messages `Send` and `SendMultipart`
  -- sent, how many bytes those had, and how many bytes the callers were handed; a request that failed
  -- counts for nothing. The library, which counts for itself, has accepted these messages and, on
  -- XSUB, one more for each `Subscribe` and `Unsubscribe` that succeeded, which the metrics leave out.
  pub play-new_go_socket :
      (o : Options) (rs : List Request) {z : ZmqSocket (Counted S)}
      → new_go_socket (counting zmq) kind o ≡ ok z
      → let (log, z') = play (counting zmq) rs z in
        Shows z'.metrics (total messages_out log) (total bytes_out log) (total bytes_in log)
        × Took kind z'
            (total messages_out log + total (control_messages kind) log)
            (total bytes_out log + total (control_bytes kind) log)
  play-new_go_socket o rs {z} h = (
    ground (arith, play-Shows (counting zmq) rs z 0 0 0 (fresh-Shows (counting zmq) kind o h)),
    ground (arith, play-Took rs z 0 0 (fresh-Took o h)),
  )
