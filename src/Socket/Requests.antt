-- ===== src/Socket/Requests.antt =====
-- The methods of a socket as one type, and sequences of them.
use qzmq.Common.{ℕ, List, [], ◌∷◌, Outcome, Action, ◌>>=◌, ◌>>◌, pure}
use qzmq.Common.Text.{Text}
use qzmq.Socket.Types.{ZmqLibrary, ZmqSocket, Value}
use qzmq.Socket.Calls.{bind, connect, send, send_multipart, recv, recv_multipart, close}
use qzmq.Socket.Settings.{subscribe, unsubscribe, set_option, get_option}

pub data Request : Type 0 where
  bind_to connect_to subscribe_to unsubscribe_from get_of : Text → Request
  send_one : List ℕ → Request
  send_many : List (List ℕ) → Request
  recv_one recv_many close_it : Request
  set_of : Text → Value → Request

pub data Reply : Type 0 where
  no_reply : Reply
  bytes_reply : List ℕ → Reply
  frames_reply : List (List ℕ) → Reply
  value_reply : Value → Reply

module _ {S : Type 0} (zmq : ZmqLibrary S) where
  unfoldable pub handle : Request → Action (ZmqSocket S) Reply
  handle (bind_to endpoint) = bind zmq endpoint >> pure no_reply
  handle (connect_to endpoint) = connect zmq endpoint >> pure no_reply
  handle (subscribe_to filter) = subscribe zmq filter >> pure no_reply
  handle (unsubscribe_from filter) = unsubscribe zmq filter >> pure no_reply
  handle (get_of name) = get_option zmq name >>= λ v. pure (value_reply v)
  handle (send_one content) = send zmq content >> pure no_reply
  handle (send_many parts) = send_multipart zmq parts >> pure no_reply
  handle recv_one = recv zmq >>= λ bs. pure (bytes_reply bs)
  handle recv_many = recv_multipart zmq >>= λ fs. pure (frames_reply fs)
  handle close_it = close zmq >> pure no_reply
  handle (set_of name value) = set_option zmq name value >> pure no_reply

  -- What each of the requests was answered, in order.
  abbrev pub play : List Request → ZmqSocket S → List (Request × Outcome Reply) × ZmqSocket S
  play [] z = ([], z)
  play (r ∷ rs) z =
      let (answer, z') = handle r z in let (log, end) = play rs z' in ((r, answer) ∷ log, end)
