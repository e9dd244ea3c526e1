-- ===== src/Socket/Closed.antt =====
-- A socket that is closed.
use qzmq.Common.{◌≡◌, refl, ap, true, List, [], ◌∷◌, map, Outcome, ok, err, not_connected, arith}
use qzmq.Socket.Types.{ZmqLibrary, ZmqSocket}
use qzmq.Socket.Calls.{bind, connect, send, send_multipart, recv, recv_multipart, close, on_library}
use qzmq.Socket.Settings.{subscribe, unsubscribe, set_option, get_option}
use qzmq.Socket.Requests.{
  Request, Reply, no_reply, bind_to, connect_to, subscribe_to, unsubscribe_from, get_of, send_one,
  send_many, recv_one, recv_many, close_it, set_of, handle, play,
}

-- What a closed socket answers.
abbrev pub refusal : Request → Outcome Reply
refusal close_it = ok no_reply
refusal _ = err not_connected

module _ {S : Type 0} (zmq : ZmqLibrary S) where
  -- The socket after a request to a closed one: only another `Close` reaches the library, whose
  -- context it cancels again.
  abbrev pub untouched : Request → ZmqSocket S → ZmqSocket S
  untouched close_it z = record z { socket = zmq.cancel_context z.socket }
  untouched _ z = z

  pub handle-closed :
      (r : Request) (z : ZmqSocket S)
      → z.closed ≡ true
      → handle zmq r z ≡ (refusal r, untouched r z)
  unfolding handle bind connect subscribe unsubscribe get_option send send_multipart recv
      recv_multipart close set_option
  handle-closed (bind_to endpoint) z h = ground arith
  handle-closed (connect_to endpoint) z h = ground arith
  handle-closed (subscribe_to filter) z h = ground arith
  handle-closed (unsubscribe_from filter) z h = ground arith
  handle-closed (get_of name) z h = ground arith
  handle-closed (send_one content) z h = ground arith
  handle-closed (send_many parts) z h = ground arith
  handle-closed recv_one z h = ground arith
  handle-closed recv_many z h = ground arith
  handle-closed close_it z h = ground arith
  handle-closed (set_of name value) z h = ground arith

  pub untouched-closed :
      (r : Request) (z : ZmqSocket S) → z.closed ≡ true → (untouched r z).closed ≡ true
  untouched-closed r z h = ground arith

  play-closed :
      (rs : List Request) (z : ZmqSocket S)
      → z.closed ≡ true
      → (play zmq rs z).0 ≡ map (λ r. (r, refusal r)) rs
  play-closed [] z h = refl
  play-closed (r ∷ rs) z h =
      rw (handle-closed r z h)
        (ap (λ log. (r, refusal r) ∷ log) (play-closed rs (untouched r z) (untouched-closed r z h)))

  pub close-closed : (z : ZmqSocket S) → (close zmq z).1.closed ≡ true
  unfolding close on_library
  close-closed z = ground arith

  -- After `Close`, however it ended, every later request is answered with the error of a socket that
  -- is not connected, in any sequence and whatever the library does; only another `Close` succeeds.
  pub play-close :
      (rs : List Request) (z : ZmqSocket S)
      → (play zmq rs (close zmq z).1).0 ≡ map (λ r. (r, refusal r)) rs
  play-close rs z = play-closed rs (close zmq z).1 (close-closed z)
