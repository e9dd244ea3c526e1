-- ===== src/Connection/Hello.antt =====
-- `clientHello` by mode.
use qzmq.Common.{◌≡◌, ◌≢◌, suc, [], ◌∷◌, ◌++◌, none, ok, panic, arith}
use qzmq.Options.{mode_pq_only, hybrid_x25519_mlkem768}
use qzmq.Wire.{ClientHelloMsg, ext_pq_only}
use qzmq.Wire.Layout.{client_hello_layout, marshal_client_hello-layout}
use qzmq.Crypto.{get_kem, Kem, generate_key_pair, nil_public}
use qzmq.Crypto.Host.{Host, FillsBuffers}
use qzmq.Connection.State.{Connection, state_init, state_client_hello}
use qzmq.Connection.Handshake.{
  client_hello, draw_client_random, init_kem, make_local_keys, hello_extensions, hello_message,
}

module _ (host : Host) (c : Connection) where
  -- Outside of PQ-only mode the suite's KEM `HybridX25519MLKEM768`, which is that of the default
  -- options, brings every first ClientHello down: `getKEM` returns a `HybridKEM` whose parts are nil,
  -- and `GenerateKeyPair` calls a method on one.
  pub client_hello_hybrid_panics :
      c.state ≡ state_init
      → c.opts.mode ≢ mode_pq_only
      → c.opts.suite.kem ≡ hybrid_x25519_mlkem768
      → (host.rand c.draws 32).1 ≡ none
      → (client_hello host c).0 ≡ panic
  unfolding client_hello draw_client_random init_kem make_local_keys get_kem generate_key_pair
  client_hello_hybrid_panics s m k r = ground arith

  -- The ClientHello of PQ-only mode: a random of 32 bytes and the one extension that says so.
  abbrev pub pq_only_hello : ClientHelloMsg
  pq_only_hello =
      hello_message host (record c { client_random = (host.rand c.draws 32).0 })
        (record { typ = ext_pq_only; content = 0x01 ∷ [] } ∷ [])

  -- In PQ-only mode a first ClientHello with a known KEM succeeds, if crypto/rand does: it returns
  -- the layout of its message, puts it behind the transcript, and generates no key pair.
  pub client_hello_pq_only :
      (kem : Kem)
      → FillsBuffers host
      → c.state ≡ state_init
      → c.opts.mode ≡ mode_pq_only
      → get_kem c.opts.suite.kem ≡ ok kem
      → c.local_kem_pk ≡ nil_public
      → (host.rand c.draws 32).1 ≡ none
      → client_hello host c ≡ (
        ok (client_hello_layout pq_only_hello),
        record c {
          client_random = (host.rand c.draws 32).0;
          kem = kem;
          transcript = c.transcript ++ client_hello_layout pq_only_hello;
          state = state_client_hello;
          draws = suc c.draws;
        },
      )
  unfolding client_hello draw_client_random init_kem hello_extensions hello_message
  client_hello_pq_only kem fills s m k n r =
      ground (arith, marshal_client_hello-layout pq_only_hello (fills c.draws 32))
