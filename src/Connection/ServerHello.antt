-- ===== src/Connection/ServerHello.antt =====
-- `processServerHello` on every input.
use qzmq.Common.Bytes.{read_byte_ok, copy_out_ok}
use qzmq.Common.{
  ltb, if◌then◌else◌, take, drop, get_or, ◌++◌, server_hello_too_short, suite_mismatch, ◌≡◌, List,
  ℕ, [], true, ok, err, arith, length,
}
use qzmq.Options.{Suite, zero_suite, suite_eq}
use qzmq.Wire.{ServerHelloMsg, unmarshal_server_hello}
use qzmq.Crypto.{raw_public}
use qzmq.Crypto.Host.{Host}
use qzmq.Connection.State.{Connection, state_client_hello, state_server_hello}
use qzmq.Connection.Handshake.{empty_server_hello, check_certificate, process_server_hello}

-- The ServerHello that `unmarshal` makes of enough bytes: version and random are read, and the
-- other fields keep their zero values.
abbrev pub read_hello : List ℕ → ServerHelloMsg
read_hello bytes = record empty_server_hello {
  version = get_or bytes 0 0;
  random = take 32 (drop 1 bytes);
}

unmarshal_server_hello_lem :
    (bytes : List ℕ)
    → unmarshal_server_hello bytes empty_server_hello ≡ (
        if ltb (length bytes) 34
        then (err server_hello_too_short, empty_server_hello)
        else (ok tt, read_hello bytes))
unfolding unmarshal_server_hello
unmarshal_server_hello_lem bytes = ground (arith, read_byte_ok bytes 0, copy_out_ok 32 bytes 1)

pub suite_eq-zero : (s : Suite) → suite_eq zero_suite s ≡ true → s ≡ zero_suite
suite_eq-zero s h = ground arith

module _ (host : Host) where
  -- What an accepted ServerHello leaves: the server's key is empty.
  abbrev pub accepted : List ℕ → Connection → Connection
  accepted bytes c = record c {
    server_random = take 32 (drop 1 bytes);
    remote_kem_pk = raw_public [];
    transcript = c.transcript ++ bytes;
    state = state_server_hello;
  }

  -- `processServerHello` on every input: fewer than 34 bytes are too short; otherwise the random is
  -- stored, and the message is accepted if and only if the options ask for the zero suite, X25519
  -- with Ed25519, AES-256-GCM and SHA-256. No certificate is looked at and no server key is read.
  pub process_server_hello_lem :
      (bytes : List ℕ) (c : Connection)
      → c.state ≡ state_client_hello
      → process_server_hello host bytes c ≡ (
          if ltb (length bytes) 34
          then (err server_hello_too_short, c)
          else if suite_eq zero_suite c.opts.suite
          then (ok tt, accepted bytes c)
          else (err suite_mismatch, record c { server_random = take 32 (drop 1 bytes) }))
  unfolding process_server_hello check_certificate
  process_server_hello_lem bytes c h = ground (arith, unmarshal_server_hello_lem bytes)
