-- ===== src/Socket/Types.antt =====
-- backend.go and qzmq.go: the socket, its metrics, and the values of `interface{}`. What luxfi/zmq
-- implements enters as a `ZmqLibrary` over the states `S` of its sockets.
use qzmq.Common.{ℕ, List, Bool, Option, Error, Outcome}
use qzmq.Common.Int.{ℤ}
use qzmq.Common.Text.{Text}
use qzmq.Options.{Backend, Options, SocketType, Suite}

-- The dynamic types that the code puts into an `interface{}` or asks one for; `other` is any other.
pub data Value : Type 0 where
  int_value : ℤ → Value
  text_value : Text → Value
  bool_value : Bool → Value
  socket_type_value : SocketType → Value
  suite_value : Suite → Value
  backend_value : Backend → Value
  other : ℕ → Value

-- The constructors of luxfi/zmq.
pub data ZmqConstructor : Type 0 where
  new_req new_rep new_pub new_sub new_xpub new_xsub : ZmqConstructor
  new_push new_pull new_pair new_dealer new_router new_stream : ZmqConstructor

pub data ZmqOption : Type 0 where
  option_subscribe option_unsubscribe option_hwm : ZmqOption

-- `make` gives no state where the library returns nil. A message is its frames. `recv` blocks until
-- there is a message or an error.
pub record ZmqLibrary (S : Type 0) : Type 0 where
  pub make : ZmqConstructor → Option S
  pub listen : Text → S → Option Error × S
  pub dial : Text → S → Option Error × S
  pub send_frames : List (List ℕ) → S → Option Error × S
  pub recv_frames : S → Outcome (List (List ℕ)) × S
  pub set_zmq_option : ZmqOption → Value → S → Option Error × S
  pub close_zmq : S → Option Error × S
  -- The cancellation of the context that the socket was made with.
  pub cancel_context : S → S

pub record SocketMetrics : Type 0 where
  pub messages_sent : ℕ
  pub messages_received : ℕ
  pub bytes_sent : ℕ
  pub bytes_received : ℕ
  pub errors : ℕ
  pub key_updates : ℕ
  pub average_latency : ℤ

-- The state of the library's socket stands for the field `socket`, and for `ctx` and `cancel`.
pub record ZmqSocket (S : Type 0) : Type 0 where
  pub socket : S
  pub socket_type : SocketType
  pub opts : Options
  pub metrics : SocketMetrics
  pub closed : Bool

abbrev pub new_socket_metrics : SocketMetrics
new_socket_metrics = record {
  messages_sent = 0;
  messages_received = 0;
  bytes_sent = 0;
  bytes_received = 0;
  errors = 0;
  key_updates = 0;
  average_latency = ℤ.pos 0;
}
