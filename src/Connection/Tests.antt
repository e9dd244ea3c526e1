-- ===== src/Connection/Tests.antt =====
-- Runs of the handshake, and the theorems at concrete connections.
use qzmq.Common.{
  ℕ, ◌+◌, ◌*◌, ◌^◌, List, [], ◌∷◌, ◌≡◌, ◌≢◌, ◌↔◌, refl, replicate, false, true, ok, err, panic,
  some, arith, invalid_state_finished, ◌-◌,
}
use qzmq.Options.{
  default_options, conservative_options, performance_options, zero_suite, aes256_gcm, Options,
  validate_options, fill_rotation, check_suite,
}
use qzmq.Common.Int.{pos}
use qzmq.Wire.Layout.{client_hello_layout}
use qzmq.Crypto.{KeySet, mlkem1024_type, random_bytes, derive_keys, get_kem, compute_finished_mac}
use qzmq.Crypto.Sample.{sample_host, sample_host-FillsBuffers}
use qzmq.Connection.State.{
  Connection, new_connection, state_client_hello, state_client_key, state_established,
}
use qzmq.Connection.Handshake.{
  client_hello, process_server_hello, process_finished, open_finished, bad_mac,
}
use qzmq.Connection.Rotation.{needs_key_update, update_keys}
use qzmq.Connection.Calls.{
  send_client_hello, receive_server_hello, receive_finished, send_client_key, run, Moves,
}
use qzmq.Connection.Guards.{run_out_of_turn}
use qzmq.Connection.Progress.{run-Moves}
use qzmq.Connection.Hello.{client_hello_hybrid_panics, client_hello_pq_only, pq_only_hello}
use qzmq.Connection.ServerHello.{process_server_hello_lem, accepted}
use qzmq.Connection.Finished.{Authenticates, established, process_finished_sound}
use qzmq.Connection.Stuck.{RefusesBadPoints, Reach, fresh, called, rotated, Reach-not_established}
use qzmq.Connection.Renewal.{IsWorn, needs_key_update-validate_options, update_keys_rests}

abbrev default_client : Connection
default_client = new_connection default_options false 1000

abbrev conservative_client : Connection
conservative_client = new_connection conservative_options false 1000

run_out_of_turn_example :
    run sample_host (receive_finished (1 ∷ [])) default_client
    ≡ (err invalid_state_finished, default_client)
unfolding new_connection
run_out_of_turn_example =
    run_out_of_turn sample_host (receive_finished (1 ∷ [])) default_client (ground arith)

run-Moves_example :
    Moves send_client_hello conservative_client
      (run sample_host send_client_hello conservative_client)
run-Moves_example = run-Moves sample_host send_client_hello conservative_client

client_hello_hybrid_panics_example : (client_hello sample_host default_client).0 ≡ panic
unfolding new_connection default_options
client_hello_hybrid_panics_example =
    client_hello_hybrid_panics sample_host default_client refl (ground arith) refl refl

client_hello_pq_only_example : client_hello sample_host conservative_client ≡ (
  ok (client_hello_layout (pq_only_hello sample_host conservative_client)),
  record conservative_client {
    client_random = replicate 32 1;
    kem = mlkem1024_type;
    transcript = client_hello_layout (pq_only_hello sample_host conservative_client);
    state = state_client_hello;
    draws = 1;
  },
)
unfolding new_connection conservative_options get_kem
client_hello_pq_only_example =
    client_hello_pq_only sample_host conservative_client mlkem1024_type sample_host-FillsBuffers
      refl refl refl refl refl

-- A client of the zero suite that waits for a ServerHello.
abbrev waiting : Connection
waiting = record (new_connection (record performance_options { suite = zero_suite }) false 0) {
  state = state_client_hello;
}

abbrev server_bytes : List ℕ
server_bytes = replicate 40 3

process_server_hello_lem_example :
    process_server_hello sample_host server_bytes waiting
    ≡ (ok tt, accepted sample_host server_bytes waiting)
unfolding new_connection
process_server_hello_lem_example = process_server_hello_lem sample_host server_bytes waiting refl

abbrev sample_keys : KeySet
sample_keys = derive_keys sample_host (1 ∷ []) (2 ∷ []) conservative_options.suite.hash

-- A client that waits for a Finished, and one that authenticates its transcript.
abbrev finishing : Connection
finishing = record conservative_client {
  state = state_client_key;
  transcript = replicate 70 8;
  keys = some sample_keys;
  server_aead = some (record { algorithm = aes256_gcm; key = [] });
}

abbrev finished_text : List ℕ
finished_text = replicate 33 70

finished_accepted :
    process_finished sample_host finished_text finishing
    ≡ (ok tt, established sample_keys finishing)
unfolding process_finished open_finished bad_mac compute_finished_mac
finished_accepted = refl

process_finished_sound_example :
    (k : KeySet) × Authenticates sample_host finished_text finishing k
    × (established sample_keys finishing ≡ established k finishing)
process_finished_sound_example =
    process_finished_sound sample_host finished_text finishing finished_accepted

sample_host-RefusesBadPoints : RefusesBadPoints sample_host
sample_host-RefusesBadPoints k p s h = ground arith

-- A fresh client after a ClientHello, a ServerHello, a rotation and a ClientKey.
abbrev far : Connection
far =
    (run sample_host send_client_key
      (update_keys sample_host 50
        (run sample_host (receive_server_hello server_bytes)
          (run sample_host send_client_hello conservative_client).1).1).1).1

far-Reach : Reach sample_host conservative_options far
far-Reach = called send_client_key (
    rotated 50
      (called (receive_server_hello server_bytes) (called send_client_hello (fresh false 1000))))

Reach-not_established_example : (far.state ≢ state_client_key) × (far.state ≢ state_established)
Reach-not_established_example =
    Reach-not_established sample_host conservative_options far sample_host-RefusesBadPoints
      far-Reach

-- A client whose counter of messages stands at its limit.
abbrev worn : Connection
worn = record conservative_client { message_count = 2 ^ 20 }

-- Options that set no limit, and what a validation makes of them.
abbrev limitless : Options
limitless = record default_options {
  key_rotation = record { max_messages = 0; max_bytes = 0; max_age = pos 0 };
}

abbrev limited : Options
limited = record limitless { key_rotation = fill_rotation limitless.key_rotation }

limitless_passes : validate_options (some limitless) ≡ (ok tt, some limited)
unfolding validate_options check_suite default_options
limitless_passes = refl

-- A client of these options at the last message before the limit.
abbrev nearly_worn : Connection
nearly_worn = record (new_connection limited false 0) { message_count = 2 ^ 32 - 1 }

needs_key_update-validate_options_example :
    (needs_key_update 600000000000 nearly_worn ≡ true) ↔ IsWorn 600000000000 nearly_worn
unfolding new_connection
needs_key_update-validate_options_example =
    needs_key_update-validate_options limitless limited 600000000000 nearly_worn refl
      limitless_passes refl

abbrev rotated_keys : KeySet
rotated_keys = derive_keys sample_host (replicate 32 1) [] conservative_options.suite.hash

abbrev rested : Connection
rested = record worn { message_count = 0; byte_count = 0; last_key_update = 2000; draws = 1 }

worn_rotates : update_keys sample_host 2000 worn ≡ (ok rotated_keys, rested)
unfolding update_keys random_bytes new_connection
worn_rotates = refl

update_keys_rests_example : needs_key_update (2000 + 10 ^ 9) rested ≡ false
unfolding conservative_options default_options new_connection
update_keys_rests_example =
    update_keys_rests sample_host worn 2000 (2000 + 10 ^ 9) (300 * 10 ^ 9) worn_rotates refl
      (omega arith)
