-- ===== src/Connection/Calls.antt =====
-- The four calls of the client's handshake as one type, with the states that they lead between.
use qzmq.Common.{
  List, ℕ, [], Outcome, Error, ok, err, panic, Action, ◌>>◌, pure, ◌≡◌, ◌++◌,
  invalid_state_client_hello, invalid_state_server_hello, invalid_state_client_key,
  invalid_state_finished,
}
use qzmq.Crypto.Host.{Host}
use qzmq.Connection.State.{
  Connection, ConnectionState, state_init, state_client_hello, state_server_hello, state_client_key,
  state_established,
}
use qzmq.Connection.Handshake.{client_hello, process_server_hello, client_key, process_finished}

pub data Call : Type 0 where
  send_client_hello send_client_key : Call
  receive_server_hello receive_finished : List ℕ → Call

-- A call; the result is what it sends to the server, and nothing for a message that came in.
unfoldable pub run : Host → Call → Action Connection (List ℕ)
run host send_client_hello = client_hello host
run host (receive_server_hello bytes) = process_server_hello host bytes >> pure []
run host send_client_key = client_key host
run host (receive_finished bytes) = process_finished host bytes >> pure []

-- The state in which a call is accepted, the state that it leads to, and its complaint elsewhere.
abbrev pub source : Call → ConnectionState
source send_client_hello = state_init
source (receive_server_hello bytes) = state_client_hello
source send_client_key = state_server_hello
source (receive_finished bytes) = state_client_key

abbrev pub target : Call → ConnectionState
target send_client_hello = state_client_hello
target (receive_server_hello bytes) = state_server_hello
target send_client_key = state_client_key
target (receive_finished bytes) = state_established

abbrev pub state_error : Call → Error
state_error send_client_hello = invalid_state_client_hello
state_error (receive_server_hello bytes) = invalid_state_server_hello
state_error send_client_key = invalid_state_client_key
state_error (receive_finished bytes) = invalid_state_finished

-- What a call puts behind the transcript, by what it sends. `processFinished` puts nothing there.
abbrev pub recorded : Call → List ℕ → List ℕ
recorded send_client_hello sent = sent
recorded (receive_server_hello bytes) sent = bytes
recorded send_client_key sent = sent
recorded (receive_finished bytes) sent = []

-- What a call that began in `c` has done, by how it ended.
abbrev pub Moves : Call → Connection → Outcome (List ℕ) × Connection → Type 0
Moves call c (ok sent, c') =
    (c.state ≡ source call)
    × (c'.state ≡ target call)
    × (c'.transcript ≡ c.transcript ++ recorded call sent)
Moves call c (err e, c') = (c'.state ≡ c.state) × (c'.transcript ≡ c.transcript)
Moves call c (panic, c') = (c'.state ≡ c.state) × (c'.transcript ≡ c.transcript)
