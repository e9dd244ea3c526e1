-- ===== src/Connection/Stuck.antt =====
-- The connections that a fresh one can become.
use qzmq.Common.{
  Error, ◌⊎◌, inl, inr, ◌≡◌, ◌≢◌, refl, List, ℕ, [], Bool, Outcome, ok, err, panic, arith, length,
}
use qzmq.Options.{Options}
use qzmq.Crypto.{
  x25519_kem, raw_public, get_kem, encapsulate, x25519_encapsulate, random_bytes, public_bytes,
}
use qzmq.Crypto.Host.{Host}
use qzmq.Connection.State.{
  Connection, state_client_hello, state_server_hello, state_client_key, state_established,
  new_connection,
}
use qzmq.Connection.Handshake.{
  process_finished, draw_client_random, init_kem, make_local_keys, process_server_hello,
  client_hello, client_key,
}
use qzmq.Connection.ServerHello.{suite_eq-zero, process_server_hello_lem}
use qzmq.Connection.Progress.{ConnectionState-discrete}
use qzmq.Connection.Rotation.{update_keys}
use qzmq.Connection.Calls.{
  Call, run, send_client_hello, send_client_key, receive_server_hello, receive_finished,
}

-- X25519 refuses a point that has not 32 bytes, as its documentation says.
abbrev pub RefusesBadPoints : Host → Type 0
RefusesBadPoints host = (k p s : List ℕ) → length p ≢ 32 → host.x25519 k p ≢ ok s

fails :
    {A : Type 0} (r : Outcome A) → ((a : A) → r ≢ ok a) → ((x : Error) × (r ≡ err x)) ⊎ (r ≡ panic)
fails (ok a) h = absurd (h a refl)
fails (err x) h = inl (x, refl)
fails panic h = inr refl

-- What a reachable connection with the options `o` looks like, by its state.
pub record IsStuck (o : Options) (c : Connection) : Type 0 where
  pub opts_kept : c.opts ≡ o
  pub hello_kem : c.state ≡ state_client_hello → get_kem o.suite.kem ≡ ok c.kem
  pub server_kem : c.state ≡ state_server_hello → c.kem ≡ x25519_kem
  pub server_key : c.state ≡ state_server_hello → c.remote_kem_pk ≡ raw_public []
  pub no_client_key : c.state ≢ state_client_key
  pub not_established : c.state ≢ state_established

module _ (host : Host) (c : Connection) where
  draw_client_random_kept :
      ((draw_client_random host c).1.opts ≡ c.opts)
      × ((draw_client_random host c).1.state ≡ c.state)
  unfolding draw_client_random
  draw_client_random_kept = ground arith

  init_kem_sets :
      ((init_kem host c).1.opts ≡ c.opts)
      × ((init_kem host c).1.state ≡ c.state)
      × ((init_kem host c).0 ≡ ok tt → get_kem c.opts.suite.kem ≡ ok (init_kem host c).1.kem)
  unfolding init_kem
  init_kem_sets = ground arith

  make_local_keys_kept :
      ((make_local_keys host c).1.opts ≡ c.opts)
      × ((make_local_keys host c).1.state ≡ c.state)
      × ((make_local_keys host c).1.kem ≡ c.kem)
  unfolding make_local_keys
  make_local_keys_kept = ground arith

module _ (host : Host) (o : Options) where
  client_hello-IsStuck : (c : Connection) → IsStuck o c → IsStuck o (client_hello host c).1
  unfolding client_hello
  client_hello-IsStuck c s =
      let d = (draw_client_random host c).1 in
      let e = (init_kem host d).1 in
      ground
        (arith, draw_client_random_kept host c, init_kem_sets host d, make_local_keys_kept host e)

  received :
      (bytes : List ℕ) (c : Connection)
      → c.state ≡ state_client_hello
      → IsStuck o c
      → IsStuck o (process_server_hello host bytes c).1
  unfolding get_kem
  received bytes c h s =
      ground (arith, process_server_hello_lem host bytes c h, suite_eq-zero c.opts.suite)

  process_server_hello-IsStuck :
      (bytes : List ℕ) (c : Connection)
      → IsStuck o c
      → IsStuck o (process_server_hello host bytes c).1
  process_server_hello-IsStuck bytes c s =
      elim (ConnectionState-discrete c.state state_client_hello) [
        | yes h ↦ received bytes c h s
        | no n ↦ unfold process_server_hello in ground arith
      ]

  empty_key_refused :
      RefusesBadPoints host
      → (n : ℕ)
      → let r = (encapsulate host x25519_kem (raw_public []) n).0 in
        ((x : Error) × (r ≡ err x)) ⊎ (r ≡ panic)
  unfolding encapsulate x25519_encapsulate public_bytes random_bytes
  empty_key_refused refuses n =
      ground (arith, fails (host.x25519 (host.rand n 32).0 []) (λ s. refuses _ [] s (omega arith)))

  client_key-IsStuck :
      RefusesBadPoints host → (c : Connection) → IsStuck o c → IsStuck o (client_key host c).1
  unfolding client_key
  client_key-IsStuck refuses c s = ground (arith, empty_key_refused refuses c.draws)

  process_finished-IsStuck :
      (enc : List ℕ) (c : Connection) → IsStuck o c → IsStuck o (process_finished host enc c).1
  unfolding process_finished
  process_finished-IsStuck enc c s = ground arith

  run-IsStuck :
      RefusesBadPoints host
      → (call : Call) (c : Connection) → IsStuck o c
      → IsStuck o (run host call c).1
  unfolding run
  run-IsStuck refuses send_client_hello c s = client_hello-IsStuck c s
  run-IsStuck refuses (receive_server_hello bytes) c s =
      ground (arith, process_server_hello-IsStuck bytes c)
  run-IsStuck refuses send_client_key c s = client_key-IsStuck refuses c s
  run-IsStuck refuses (receive_finished enc) c s = ground (arith, process_finished-IsStuck enc c)

  update_keys-IsStuck :
      (now : ℕ) (c : Connection) → IsStuck o c → IsStuck o (update_keys host now c).1
  unfolding update_keys random_bytes
  update_keys-IsStuck now c s = ground arith

-- The connections that a fresh one can become, whatever bytes arrive and whenever keys are rotated.
pub data Reach (host : Host) (o : Options) : Connection → Type 0 where
  fresh : (is_server : Bool) (now : ℕ) → Reach host o (new_connection o is_server now)
  called : {c : Connection} (call : Call) → Reach host o c → Reach host o (run host call c).1
  rotated : {c : Connection} (now : ℕ) → Reach host o c → Reach host o (update_keys host now c).1

new_connection-IsStuck :
    (o : Options) (is_server : Bool) (now : ℕ) → IsStuck o (new_connection o is_server now)
unfolding new_connection
new_connection-IsStuck o is_server now = ground arith

Reach-IsStuck :
    (host : Host) (o : Options) {c : Connection}
    → RefusesBadPoints host
    → Reach host o c
    → IsStuck o c
Reach-IsStuck host o refuses (fresh is_server now) = new_connection-IsStuck o is_server now
Reach-IsStuck host o refuses (called {c} call r) =
    run-IsStuck host o refuses call c (Reach-IsStuck host o refuses r)
Reach-IsStuck host o refuses (rotated {c} now r) =
    update_keys-IsStuck host o now c (Reach-IsStuck host o refuses r)

-- No handshake ever completes, whatever the options and the messages received: if X25519 refuses
-- points that have not 32 bytes, then a connection that a fresh one becomes by its four calls and by
-- key rotation, in any order, has neither sent a ClientKey nor reached the established state.
pub Reach-not_established :
    (host : Host) (o : Options) (c : Connection)
    → RefusesBadPoints host
    → Reach host o c
    → (c.state ≢ state_client_key) × (c.state ≢ state_established)
Reach-not_established host o c refuses r =
    let stuck = Reach-IsStuck host o refuses r in (stuck.no_client_key, stuck.not_established)
