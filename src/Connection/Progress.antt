-- ===== src/Connection/Progress.antt =====
-- The handshake's states and its transcript, call by call.
use qzmq.Common.{
  refl, resume, append-nil, suite_mismatch, finished_mac, invalid_state_client_key,
  invalid_state_server_hello, invalid_state_finished, Error, [], Outcome, ◌++◌, ◌>>=◌, ◌>>◌, modify,
  pure, after_bind, Bool, true, false, not, fail_if, lift, invalid_state_client_hello, ◌≡◌, ok, err,
  panic, arith, Action, List, ℕ,
}
use qzmq.Options.{suite_eq, is_pq_only}
use qzmq.Wire.{unmarshal_server_hello, marshal_client_hello, marshal_client_key}
use qzmq.Crypto.{raw_public, encapsulate}
use qzmq.Crypto.Host.{Host}
use qzmq.Connection.State.{
  Connection, ConnectionState, state_client_hello, state_server_hello, state_client_key,
  state_established, is_init, is_server_hello, is_client_hello, is_client_key, drawing,
}
use qzmq.Connection.Handshake.{
  follow, open_finished, bad_mac, empty_server_hello, when, client_hello, process_server_hello,
  client_key, process_finished, draw_client_random, init_kem, make_local_keys, check_certificate,
  client_signature, hello_extensions, hello_message, ecdhe_secret, install_keys,
}
use qzmq.Connection.Calls.{
  Call, send_client_hello, send_client_key, receive_server_hello, receive_finished, run, source,
  target, recorded, Moves,
}
use qzmq.Connection.Guards.{run_out_of_turn}

-- What the parts of a call leave alone.
pub record Keeps (c c' : Connection) : Type 0 where
  pub opts_kept : c'.opts ≡ c.opts
  pub state_kept : c'.state ≡ c.state
  pub transcript_kept : c'.transcript ≡ c.transcript

module _ (host : Host) (c : Connection) where
  draw_client_random-Keeps : Keeps c (draw_client_random host c).1
  unfolding draw_client_random
  draw_client_random-Keeps = ground arith

  init_kem-Keeps : Keeps c (init_kem host c).1
  unfolding init_kem
  init_kem-Keeps = ground arith

  make_local_keys-Keeps : Keeps c (make_local_keys host c).1
  unfolding make_local_keys
  make_local_keys-Keeps = ground arith

  ecdhe_secret-Keeps : Keeps c (ecdhe_secret host c).1
  unfolding ecdhe_secret
  ecdhe_secret-Keeps = ground arith

  check_certificate-Keeps : (m : _) → Keeps c (check_certificate host m c).1
  unfolding check_certificate
  check_certificate-Keeps m = ground arith

  install_keys-Keeps : (s e : List ℕ) → Keeps c (install_keys host s e c).1
  unfolding install_keys
  install_keys-Keeps s e = ground arith

Keeps-refl : (c : Connection) → Keeps c c
Keeps-refl c = ground arith

Keeps-trans : {a b c : Connection} → Keeps a b → Keeps b c → Keeps a c
Keeps-trans h k = ground arith

-- How a call that began in `b` and was made in turn has ended, if `written` gives the bytes that its
-- result stands for.
abbrev Ends :
    {B : Type 0} → ConnectionState → (B → List ℕ) → Connection → Outcome B × Connection → Type 0
Ends target written b (ok r, c) = (c.state ≡ target) × (c.transcript ≡ b.transcript ++ written r)
Ends target written b (err e, c) = (c.state ≡ b.state) × (c.transcript ≡ b.transcript)
Ends target written b (panic, c) = (c.state ≡ b.state) × (c.transcript ≡ b.transcript)

module _ {B : Type 0} (t : ConnectionState) (w : B → List ℕ) {b : Connection} where
  -- A part that keeps state and transcript, with what follows it.
  keep_going :
      {A : Type 0} (m : Action Connection A) (f : A → Action Connection B) {c : Connection}
      → Keeps b c
      → ((c : Connection) → Keeps c (m c).1)
      → ((a : A) (c' : Connection) → Keeps b c' → Ends t w b (f a c'))
      → Ends t w b ((m >>= f) c)
  keep_going m f {c} h k rest =
      after_bind (λ r. Keeps b r.1) (Ends t w b) m f c (Keeps-trans h (k c)) rest
        (λ e s p. (p.state_kept, p.transcript_kept)) (λ s p. (p.state_kept, p.transcript_kept))

abbrev id_bytes : List ℕ → List ℕ
id_bytes bs = bs

-- A call with no result of its own, made into one that sends nothing.
returning :
    (t : ConnectionState) (bytes : List ℕ) (m : Action Connection (Unit {0})) (c : Connection)
    → Ends t (λ _. bytes) c (m c)
    → Ends {B = List ℕ} t (λ _. bytes) c ((m >> pure []) c)
returning t bytes m c h = inspect (m c) h
  where
    inspect :
        (r : Outcome (Unit {0}) × Connection)
        → Ends t (λ _. bytes) c r
        → Ends {B = List ℕ} t (λ _. bytes) c (resume (λ _. pure []) r)
    inspect (ok x, c') h = h
    inspect (err e, c') h = h
    inspect (panic, c') h = h

when-Keeps :
    (b : Bool) (m : Action Connection (Unit {0}))
    → ((c : Connection) → Keeps c (m c).1)
    → (c : Connection) → Keeps c (when b m c).1
when-Keeps true m h c = h c
when-Keeps false m h c = Keeps-refl c

fail_if-Keeps : (b : Bool) (e : Error) (c : Connection) → Keeps c (fail_if b e c).1
fail_if-Keeps true e c = Keeps-refl c
fail_if-Keeps false e c = Keeps-refl c

module _ (host : Host) (c : Connection) where
  client_hello-Ends : Ends state_client_hello id_bytes c (client_hello host c)
  unfolding client_hello
  client_hello-Ends =
      let t = state_client_hello in
      keep_going t id_bytes (fail_if (not (is_init c.state)) invalid_state_client_hello) _
        (Keeps-refl c) (fail_if-Keeps (not (is_init c.state)) invalid_state_client_hello)
        λ _ c1 k1.
          keep_going t id_bytes (draw_client_random host) _ k1 (draw_client_random-Keeps host)
            λ _ c2 k2. keep_going t id_bytes (init_kem host) _ k2 (init_kem-Keeps host) λ _ c3 k3.
              keep_going t id_bytes (when (not (is_pq_only c3.opts.mode)) (make_local_keys host)) _
                k3
                (when-Keeps (not (is_pq_only c3.opts.mode)) (make_local_keys host)
                  (make_local_keys-Keeps host))
                λ _ c4 k4.
                  keep_going t id_bytes (lift (hello_extensions host c4)) _ k4 Keeps-refl
                    λ extensions c5 k5.
                      keep_going t id_bytes
                        (lift (marshal_client_hello (hello_message host c4 extensions))) _ k5
                        Keeps-refl λ bytes c6 k6. ground arith

  process_server_hello-Ends :
      (bytes : List ℕ) → Ends state_server_hello (λ _. bytes) c (process_server_hello host bytes c)
  unfolding process_server_hello
  process_server_hello-Ends bytes =
      let t = state_server_hello in
      let w : Unit {0} → List ℕ = λ _. bytes in
      let (parsed, msg) = unmarshal_server_hello bytes empty_server_hello in
      keep_going t w (fail_if (not (is_client_hello c.state)) invalid_state_server_hello) _
        (Keeps-refl c) (fail_if-Keeps (not (is_client_hello c.state)) invalid_state_server_hello)
        λ _ c1 k1. keep_going t w (lift parsed) _ k1 Keeps-refl λ _ c2 k2.
          keep_going t w (modify (λ c. record c { server_random = msg.random })) _ k2
            (λ d. ground arith)
            λ _ c3 k3.
              keep_going t w (fail_if (not (suite_eq msg.suite c3.opts.suite)) suite_mismatch) _ k3
                (fail_if-Keeps (not (suite_eq msg.suite c3.opts.suite)) suite_mismatch)
                λ _ c4 k4.
                  keep_going t w
                    (modify (λ c. record c { remote_kem_pk = raw_public msg.kem_public_key })) _ k4
                    (λ d. ground arith)
                    λ _ c5 k5.
                      keep_going t w (check_certificate host msg)
                        (λ _. modify (λ c. record c {
                          transcript = c.transcript ++ bytes;
                          state = state_server_hello;
                        }))
                        k5 (λ d. check_certificate-Keeps host d msg) λ _ c6 k6. ground arith

  client_key-Ends : Ends state_client_key id_bytes c (client_key host c)
  unfolding client_key
  client_key-Ends =
      let t = state_client_key in
      keep_going t id_bytes (fail_if (not (is_server_hello c.state)) invalid_state_client_key) _
        (Keeps-refl c) (fail_if-Keeps (not (is_server_hello c.state)) invalid_state_client_key)
        λ _ c1 k1.
          keep_going t id_bytes (drawing (encapsulate host c1.kem c1.remote_kem_pk)) _ k1
            (λ d. ground arith)
            λ p c2 k2.
              keep_going t id_bytes (ecdhe_secret host) _ k2 (ecdhe_secret-Keeps host)
                λ ecdhe c3 k3.
                  keep_going t id_bytes (install_keys host p.1 ecdhe) _ k3
                    (λ d. install_keys-Keeps host d p.1 ecdhe)
                    λ _ c4 k4.
                      keep_going t id_bytes (lift (client_signature host c4)) _ k4 Keeps-refl
                        λ signature c5 k5.
                          keep_going t id_bytes
                            (lift (
                              marshal_client_key (record {
                                kem_ciphertext = p.0;
                                psk_binder = [];
                                client_sig = signature;
                              })))
                            _ k5 Keeps-refl λ bytes c6 k6. ground arith

  process_finished-Ends :
      (enc : List ℕ) → Ends state_established (λ _. []) c (process_finished host enc c)
  unfolding process_finished
  process_finished-Ends enc =
      let t = state_established in
      let w : Unit {0} → List ℕ = λ _. [] in
      keep_going t w (fail_if (not (is_client_key c.state)) invalid_state_finished) _ (Keeps-refl c)
        (fail_if-Keeps (not (is_client_key c.state)) invalid_state_finished)
        λ _ c1 k1. keep_going t w (lift (follow c1.server_aead)) _ k1 Keeps-refl λ aead c2 k2.
          keep_going t w (lift (open_finished host aead c1 enc)) _ k2 Keeps-refl λ plaintext c3 k3.
            keep_going t w (lift (follow c1.keys)) _ k3 Keeps-refl λ keys c4 k4.
              keep_going t w (fail_if (bad_mac host plaintext keys c1) finished_mac) _ k4
                (fail_if-Keeps (bad_mac host plaintext keys c1) finished_mac)
                λ _ c5 k5. ground (arith, append-nil c.transcript)

run-Ends :
    (host : Host) (call : Call) (c : Connection)
    → Ends (target call) (recorded call) c (run host call c)
unfolding run
run-Ends host send_client_hello c = client_hello-Ends host c
run-Ends host (receive_server_hello bytes) c =
    returning state_server_hello bytes (process_server_hello host bytes) c
      (process_server_hello-Ends host c bytes)
run-Ends host send_client_key c = client_key-Ends host c
run-Ends host (receive_finished enc) c =
    returning state_established [] (process_finished host enc) c (process_finished-Ends host c enc)

in_turn :
    (call : Call) (c : Connection) (r : Outcome (List ℕ) × Connection)
    → c.state ≡ source call
    → Ends (target call) (recorded call) c r
    → Moves call c r
in_turn call c (ok bs, c') e h = (e, h.0, h.1)
in_turn call c (err x, c') e h = h
in_turn call c (panic, c') e h = h

pub ConnectionState-discrete : Discrete ConnectionState
ConnectionState-discrete = hlevel

-- The four calls move the handshake along init, client hello, server hello, client key and
-- established. A call that succeeds was made in its own state and leads to the next one; behind the
-- transcript it puts exactly the ClientHello or ClientKey that it sends, the ServerHello that it was
-- handed, or, for a Finished, nothing. A call that ends in an error or a panic leaves state and
-- transcript as they were.
pub run-Moves : (host : Host) (call : Call) (c : Connection) → Moves call c (run host call c)
run-Moves host call c = elim (ConnectionState-discrete c.state (source call)) [
  | yes e ↦ in_turn call c (run host call c) e (run-Ends host call c)
  | no n ↦ rw (run_out_of_turn host call c n) (refl, refl)
]
