-- ===== src/Connection/Handshake.antt =====
-- connection.go: `clientHello`, `processServerHello`, `clientKey` and `processFinished`.
use qzmq.Common.{
  ℕ, Bool, true, false, not, ◌&&◌, ◌||◌, ltb, text_eq, if◌then◌else◌, List, [], ◌∷◌, ◌++◌, take,
  length, Option, none, some, Outcome, ok, err, panic, Action, ◌>>=◌, ◌>>◌, pure, fail_if, modify,
  gets, lift, invalid_state_client_hello, invalid_state_server_hello, invalid_state_client_key,
  invalid_state_finished, suite_mismatch, invalid_server_signature, finished_decrypt, finished_mac,
}
use qzmq.Common.Bytes.{be32, be64}
use qzmq.Options.{Mode, mode_hybrid, is_pq_only, suite_eq, zero_suite}
use qzmq.Wire.{
  Extension, ClientHelloMsg, ServerHelloMsg, marshal_client_hello, marshal_client_key,
  unmarshal_server_hello, protocol_version, ext_key_share, ext_pq_only,
}
use qzmq.Crypto.{
  PublicKey, PrivateKey, nil_public, nil_private, raw_public, public_bytes, nil_kem, get_kem,
  generate_key_pair, encapsulate, random_bytes, create_aead, derive_keys, compute_finished_mac,
  KeySet, draw, check_error, sign, verify,
}
use qzmq.Crypto.Host.{Host, Aead}
use qzmq.Connection.State.{
  Connection, state_client_hello, state_server_hello, state_client_key, state_established, is_init,
  is_client_hello, is_server_hello, is_client_key, drawing, assign, attempt,
}

abbrev pub is_nil_public : PublicKey → Bool
is_nil_public nil_public = true
is_nil_public _ = false

abbrev pub is_nil_private : PrivateKey → Bool
is_nil_private nil_private = true
is_nil_private _ = false

abbrev pub is_hybrid : Mode → Bool
is_hybrid mode_hybrid = true
is_hybrid _ = false

abbrev pub when : Bool → Action Connection (Unit {0}) → Action Connection (Unit {0})
when true m = m
when false m = pure tt

abbrev pub optional : {A : Type 0} → Outcome A → Outcome (Option A)
optional (ok a) = ok (some a)
optional (err e) = err e
optional panic = panic

-- A pointer that is followed.
abbrev pub follow : {A : Type 0} → Option A → Outcome A
follow (some a) = ok a
follow none = panic

-- `serverHelloMsg{}`.
abbrev pub empty_server_hello : ServerHelloMsg
empty_server_hello = record {
  version = 0;
  random = [];
  suite = zero_suite;
  session_id = [];
  kem_public_key = [];
  certificate = [];
  signature = [];
  cookie = [];
  extensions = [];
}

module _ (host : Host) where
  -- The buffer is assigned before the read fills it.
  unfoldable pub draw_client_random : Action Connection (Unit {0})
  draw_client_random = do
    (bytes, failure) ← drawing (draw host 32)
    modify (λ c. record c { client_random = bytes })
    lift (check_error failure)

  unfoldable pub init_kem : Action Connection (Unit {0})
  init_kem = do
    alg ← gets (λ c. c.opts.suite.kem)
    kem ← assign nil_kem (λ k c. record c { kem = k }) (get_kem alg)
    pure tt

  unfoldable pub make_local_keys : Action Connection (Unit {0})
  make_local_keys = do
    kem ← gets (λ c. c.kem)
    made ← attempt (drawing (generate_key_pair host kem))
    pair ←
        assign (nil_public, nil_private)
          (λ p c. record c { local_kem_pk = p.0; local_kem_sk = p.1 }) made
    pure tt

  -- The extensions in the order in which they are appended.
  unfoldable pub hello_extensions : Connection → Outcome (List Extension)
  hello_extensions c =
      let pq_only =
        if is_pq_only c.opts.mode
        then record { typ = ext_pq_only; content = 0x01 ∷ [] } ∷ []
        else [] in
      if is_nil_public c.local_kem_pk then ok pq_only else elim (public_bytes host c.local_kem_pk) [
        | ok bs ↦ ok (pq_only ++ record { typ = ext_key_share; content = bs } ∷ [])
        | err e ↦ err e
        | panic ↦ panic
      ]

  unfoldable pub hello_message : Connection → List Extension → ClientHelloMsg
  hello_message c extensions = record {
    version = protocol_version;
    random = c.client_random;
    suite = c.opts.suite;
    session_id = c.session_id;
    extensions = extensions;
  }

  unfoldable pub client_hello : Action Connection (List ℕ)
  client_hello = do
    state ← gets (λ c. c.state)
    fail_if (not (is_init state)) invalid_state_client_hello
    draw_client_random
    init_kem
    mode ← gets (λ c. c.opts.mode)
    when (not (is_pq_only mode)) make_local_keys
    c ← gets (λ c. c)
    extensions ← lift (hello_extensions c)
    bytes ← lift (marshal_client_hello (hello_message c extensions))
    modify (λ c. record c { transcript = c.transcript ++ bytes; state = state_client_hello })
    pure bytes

  -- The check of the server's certificate, made only where both are there.
  unfoldable pub check_certificate : ServerHelloMsg → Action Connection (Unit {0})
  check_certificate msg c = elim c.signer [
    | none ↦ (ok tt, c)
    | some signer ↦
        if ltb 0 (length msg.certificate) && ltb 0 (length msg.signature)
        then (let c' = record c { remote_pub_key = some (record { content = msg.certificate }) } in
            elim (verify host signer (record { content = msg.certificate }) c.transcript
              msg.signature) [
                | ok valid ↦ if valid then (ok tt, c') else (err invalid_server_signature, c')
                | err e ↦ (err e, c')
                | panic ↦ (panic, c')
              ])
        else (ok tt, c)
  ]

  unfoldable pub process_server_hello : List ℕ → Action Connection (Unit {0})
  process_server_hello bytes = do
    state ← gets (λ c. c.state)
    fail_if (not (is_client_hello state)) invalid_state_server_hello
    let (parsed, msg) = unmarshal_server_hello bytes empty_server_hello
    lift parsed
    modify (λ c. record c { server_random = msg.random })
    suite ← gets (λ c. c.opts.suite)
    fail_if (not (suite_eq msg.suite suite)) suite_mismatch
    modify (λ c. record c { remote_kem_pk = raw_public msg.kem_public_key })
    check_certificate msg
    modify (λ c. record c { transcript = c.transcript ++ bytes; state = state_server_hello })

  -- The random bytes that stand for the ECDHE secret in hybrid mode.
  unfoldable pub ecdhe_secret : Action Connection (List ℕ)
  ecdhe_secret c =
      if is_hybrid c.opts.mode && not (is_nil_private c.local_kem_sk)
      then drawing (random_bytes host 32) c
      else (ok [], c)

  -- Keys and AEADs; a field is assigned before its error is looked at.
  unfoldable pub install_keys : List ℕ → List ℕ → Action Connection (Unit {0})
  install_keys kem_secret ecdhe = do
    suite ← gets (λ c. c.opts.suite)
    let keys = derive_keys host kem_secret ecdhe suite.hash
    modify (λ c. record c { keys = some keys })
    client ←
        assign none (λ a c. record c { client_aead = a })
          (optional (create_aead host suite.aead keys.client_key))
    server ←
        assign none (λ a c. record c { server_aead = a })
          (optional (create_aead host suite.aead keys.server_key))
    pure tt

  unfoldable pub client_signature : Connection → Outcome (List ℕ)
  client_signature c = elim c.signer [
    | none ↦ ok []
    | some signer ↦ elim c.local_sign_key [
      | none ↦ ok []
      | some key ↦ sign host signer key c.transcript
    ]
  ]

  unfoldable pub client_key : Action Connection (List ℕ)
  client_key = do
    state ← gets (λ c. c.state)
    fail_if (not (is_server_hello state)) invalid_state_client_key
    kem ← gets (λ c. c.kem)
    remote ← gets (λ c. c.remote_kem_pk)
    (ciphertext, kem_secret) ← drawing (encapsulate host kem remote)
    ecdhe ← ecdhe_secret
    install_keys kem_secret ecdhe
    c ← gets (λ c. c)
    signature ← lift (client_signature c)
    bytes ← lift (
        marshal_client_key
          (record { kem_ciphertext = ciphertext; psk_binder = []; client_sig = signature }))
    modify (λ c. record c { transcript = c.transcript ++ bytes; state = state_client_key })
    pure bytes

  -- The nonce of the first encrypted message of a stream.
  abbrev pub finished_nonce : ℕ → List ℕ
  finished_nonce stream_id = be32 stream_id ++ be64 0

  -- `Open`, whose error is replaced by one of the connection's.
  unfoldable pub open_finished : Aead → Connection → List ℕ → Outcome (List ℕ)
  open_finished aead c enc = elim (host.open_sealed aead (finished_nonce c.stream_id) enc []) [
    | ok plaintext ↦ ok plaintext
    | err e ↦ err finished_decrypt
    | panic ↦ panic
  ]

  -- `len(plaintext) < 32 || string(plaintext[:32]) != string(expectedMAC)`.
  unfoldable pub bad_mac : List ℕ → KeySet → Connection → Bool
  bad_mac plaintext keys c =
      let expected = compute_finished_mac host keys.server_key c.transcript in
      ltb (length plaintext) 32 || not (text_eq (take 32 plaintext) expected)

  unfoldable pub process_finished : List ℕ → Action Connection (Unit {0})
  process_finished enc = do
    state ← gets (λ c. c.state)
    fail_if (not (is_client_key state)) invalid_state_finished
    c ← gets (λ c. c)
    aead ← lift (follow c.server_aead)
    plaintext ← lift (open_finished aead c enc)
    keys ← lift (follow c.keys)
    fail_if (bad_mac plaintext keys c) finished_mac
    modify (λ c. record c { state = state_established; shared_secret = keys.exporter_secret })
