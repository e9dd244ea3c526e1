-- ===== src/Connection/Finished.antt =====
-- The last message of the handshake.
use qzmq.Common.{
  ltb, not, ◌||◌, ◌≡◌, ◌≤◌, List, ℕ, [], Bool, true, false, some, ok, arith, length, take, text_eq,
  text_eq→eq, Option-cases, Outcome-cases, inl, inr,
}
use qzmq.Crypto.{KeySet, compute_finished_mac}
use qzmq.Crypto.Host.{Host, Aead}
use qzmq.Connection.State.{Connection, state_established}
use qzmq.Connection.Handshake.{process_finished, open_finished, finished_nonce, bad_mac}

-- The connection after a Finished that was accepted.
abbrev pub established : KeySet → Connection → Connection
established k c = record c { state = state_established; shared_secret = k.exporter_secret }

-- The text that `serverAEAD` finds in a Finished message carries the MAC of the transcript under the
-- server's key.
pub record Authenticates (host : Host) (enc : List ℕ) (c : Connection) (k : KeySet) : Type 0 where
  pub aead : Aead
  pub plaintext : List ℕ
  pub installed : c.server_aead ≡ some aead
  pub derived : c.keys ≡ some k
  pub opens : host.open_sealed aead (finished_nonce host c.stream_id) enc [] ≡ ok plaintext
  pub long_enough : 32 ≤ length plaintext
  pub matches : take 32 plaintext ≡ compute_finished_mac host k.server_key c.transcript

accepts : (short same : Bool) → (short || not same) ≡ false → same ≡ true
accepts short same h = ground arith

module _ (host : Host) (enc : List ℕ) (c : Connection) where
  good_mac :
      (p : List ℕ) (k : KeySet)
      → bad_mac host p k c ≡ false
      → (32 ≤ length p) × (take 32 p ≡ compute_finished_mac host k.server_key c.transcript)
  unfolding bad_mac
  good_mac p k h =
      let mac = compute_finished_mac host k.server_key c.transcript in
      (
        ground arith,
        text_eq→eq (take 32 p) mac (accepts (ltb (length p) 32) (text_eq (take 32 p) mac) h),
      )

  parts :
      {c' : Connection}
      → process_finished host enc c ≡ (ok tt, c')
      → (a : Aead) × (k : KeySet) × (p : List ℕ) × (c.server_aead ≡ some a)
        × (c.keys ≡ some k)
        × (host.open_sealed a (finished_nonce host c.stream_id) enc [] ≡ ok p)
        × (bad_mac host p k c ≡ false)
        × (c' ≡ established k c)
  unfolding process_finished open_finished
  parts h = elim (Option-cases c.server_aead) [
    | inl e ↦ absurd (ground arith)
    | inr (a, installed) ↦ elim (Option-cases c.keys) [
      | inl e ↦ absurd (ground arith)
      | inr (k, derived) ↦
          elim (Outcome-cases (host.open_sealed a (finished_nonce host c.stream_id) enc [])) [
            | inl (p, opens) ↦ (a, k, p, installed, derived, opens, ground arith, ground arith)
            | inr closed ↦ absurd (ground arith)
          ]
    ]
  ]

  -- A Finished message is accepted only where it authenticates the transcript; the connection is
  -- then established, its shared secret is the exporter secret, and nothing else changes.
  pub process_finished_sound :
      {c' : Connection}
      → process_finished host enc c ≡ (ok tt, c')
      → (k : KeySet) × Authenticates host enc c k × (c' ≡ established k c)
  process_finished_sound h =
      let (a, k, p, installed, derived, opens, good, after) = parts h in
      let (long_enough, matches) = good_mac p k good in
      (
        k,
        record {
          aead = a;
          plaintext = p;
          installed = installed;
          derived = derived;
          opens = opens;
          long_enough = long_enough;
          matches = matches;
        },
        after,
      )
