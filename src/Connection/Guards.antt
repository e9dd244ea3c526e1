-- ===== src/Connection/Guards.antt =====
-- A call out of turn.
use qzmq.Common.{◌≡◌, ◌≢◌, err, arith}
use qzmq.Crypto.Host.{Host}
use qzmq.Connection.State.{Connection}
use qzmq.Connection.Handshake.{client_hello, process_server_hello, client_key, process_finished}
use qzmq.Connection.Calls.{
  Call, send_client_hello, send_client_key, receive_server_hello, receive_finished, run, source,
  state_error,
}

-- A call in any state but its own reports the error of that call and changes nothing.
pub run_out_of_turn :
    (host : Host) (call : Call) (c : Connection)
    → c.state ≢ source call
    → run host call c ≡ (err (state_error call), c)
unfolding run client_hello process_server_hello client_key process_finished
run_out_of_turn host send_client_hello c h = ground arith
run_out_of_turn host (receive_server_hello bytes) c h = ground arith
run_out_of_turn host send_client_key c h = ground arith
run_out_of_turn host (receive_finished bytes) c h = ground arith
