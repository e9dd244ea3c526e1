-- ===== src/Crypto/Advertised.antt =====
-- The sizes that a KEM reports, against what it makes.
use qzmq.Common.{
  ℕ, suc, sym, take, drop, ltb, fail_if, invalid_hybrid_public_key, ◌+◌, ◌≡◌, ap, ◌∙◌, List, ◌++◌,
  length, length-append, Outcome, Outcome-cases, inl, inr, Action, pure, ok, arith, >>=-eq_ok, lift,
}
use qzmq.Crypto.Host.{Host, FillsBuffers}
use qzmq.Crypto.Keys.{
  PublicKey, PrivateKey, Kem, raw_public, raw_private, x25519_kem, mlkem768_type, mlkem1024_type,
  real_mlkem768, real_mlkem1024, hybrid_mlkem, nil_kem, hybrid_kem, public_bytes, private_bytes,
}
use qzmq.Crypto.Parts.{
  random_bytes, random_bytes_unchecked, x25519_generate, x25519_encapsulate, stub_generate,
  stub_encapsulate,
}
use qzmq.Crypto.Sizes.{public_key_size, private_key_size, ciphertext_size, shared_secret_size}
use qzmq.Crypto.Encapsulation.{generate_key_pair, encapsulate, hybrid_encapsulate}
use qzmq.Crypto.Agreement.{x25519_generated}

-- The results of X25519 have 32 bytes, as its documentation says.
abbrev pub GivesPoints : Host → Type 0
GivesPoints host = (k p s : List ℕ) → host.x25519 k p ≡ ok s → length s ≡ 32

-- X25519 and the ML-KEM stubs, and the hybrids that `NewHybridKEM` builds of such, of any depth.
abbrev pub IsPlain : Kem → Type 0
IsPlain x25519_kem = Unit
IsPlain mlkem768_type = Unit
IsPlain mlkem1024_type = Unit
IsPlain (hybrid_kem c p) = IsPlain c × IsPlain p
IsPlain real_mlkem768 = ⊥
IsPlain real_mlkem1024 = ⊥
IsPlain hybrid_mlkem = ⊥
IsPlain nil_kem = ⊥

-- A key pair is bytes of the sizes that the KEM reports, and the private key names the public one.
pub record Fits (host : Host) (kem : Kem) (pk : PublicKey) (sk : PrivateKey) : Type 0 where
  pub public : List ℕ
  pub priv : List ℕ
  pub is_public : pk ≡ raw_public public
  pub is_private : sk ≡ raw_private priv pk
  pub public_fits : public_key_size host kem ≡ ok (length public)
  pub private_fits : private_key_size host kem ≡ ok (length priv)

module _ (host : Host) (fills : FillsBuffers host) (points : GivesPoints host) where
  x25519-Fits :
      (i : ℕ) {pk : PublicKey} {sk : PrivateKey} {i' : ℕ}
      → x25519_generate host i ≡ (ok (pk, sk), i')
      → Fits host x25519_kem pk sk
  unfolding x25519_generate random_bytes public_key_size private_key_size
  x25519-Fits i g =
      let (p, made, is_pk, is_sk) = x25519_generated host i g in
      record {
        public = p;
        priv = (host.rand i 32).0;
        is_public = is_pk;
        is_private = is_sk ∙ ap (raw_private (host.rand i 32).0) (sym is_pk);
        public_fits = ap ok (sym (points _ _ p made));
        private_fits = ap ok (sym (fills i 32));
      }

  stub768-Fits :
      (i : ℕ) {pk : PublicKey} {sk : PrivateKey} {i' : ℕ}
      → stub_generate host 1184 2400 i ≡ (ok (pk, sk), i')
      → Fits host mlkem768_type pk sk
  unfolding stub_generate random_bytes_unchecked public_key_size private_key_size
  stub768-Fits i g = record {
    public = (host.rand i 1184).0;
    priv = (host.rand (suc i) 2400).0;
    is_public = ground arith;
    is_private = ground arith;
    public_fits = ap ok (sym (fills i 1184));
    private_fits = ap ok (sym (fills (suc i) 2400));
  }

  stub1024-Fits :
      (i : ℕ) {pk : PublicKey} {sk : PrivateKey} {i' : ℕ}
      → stub_generate host 1568 3168 i ≡ (ok (pk, sk), i')
      → Fits host mlkem1024_type pk sk
  unfolding stub_generate random_bytes_unchecked public_key_size private_key_size
  stub1024-Fits i g = record {
    public = (host.rand i 1568).0;
    priv = (host.rand (suc i) 3168).0;
    is_public = ground arith;
    is_private = ground arith;
    public_fits = ap ok (sym (fills i 1568));
    private_fits = ap ok (sym (fills (suc i) 3168));
  }

  -- For X25519, the ML-KEM stubs and the hybrids of such that `NewHybridKEM` builds, of any depth, a
  -- key pair that `GenerateKeyPair` returns has the sizes that the KEM reports, and the private key names the public one, if crypto/rand fills its buffers and X25519
  -- gives 32 bytes.
  pub generate_key_pair-Fits :
      (kem : Kem) (i : ℕ) {pk : PublicKey} {sk : PrivateKey} {i' : ℕ}
      → IsPlain kem
      → generate_key_pair host kem i ≡ (ok (pk, sk), i')
      → Fits host kem pk sk
  unfolding generate_key_pair public_bytes private_bytes public_key_size private_key_size
  generate_key_pair-Fits x25519_kem i r g = x25519-Fits i g
  generate_key_pair-Fits mlkem768_type i r g = stub768-Fits i g
  generate_key_pair-Fits mlkem1024_type i r g = stub1024-Fits i g
  generate_key_pair-Fits (hybrid_kem c p) i {pk} {sk} r g =
      let (ck, m, cg, g1) = >>=-eq_ok (generate_key_pair host c) _ i g in
      let (qk, n, pg, g2) = >>=-eq_ok (generate_key_pair host p) _ m g1 in
      let cf = generate_key_pair-Fits c i r.0 cg in
      let pf = generate_key_pair-Fits p m r.1 pg in
      record {
        public = cf.public ++ pf.public;
        priv = cf.priv ++ pf.priv;
        is_public = ground (arith, cf.is_public, cf.is_private, pf.is_public, pf.is_private);
        is_private = ground (arith, cf.is_public, cf.is_private, pf.is_public, pf.is_private);
        public_fits =
            ground (arith, cf.public_fits, pf.public_fits, length-append cf.public pf.public);
        private_fits =
            ground (arith, cf.private_fits, pf.private_fits, length-append cf.priv pf.priv);
      }
  generate_key_pair-Fits real_mlkem768 i r g = absurd r
  generate_key_pair-Fits real_mlkem1024 i r g = absurd r
  generate_key_pair-Fits hybrid_mlkem i r g = absurd r
  generate_key_pair-Fits nil_kem i r g = absurd r

-- A ciphertext and a secret have the sizes that the KEM reports.
pub record Sealed (host : Host) (kem : Kem) (ct ss : List ℕ) : Type 0 where
  pub ciphertext_fits : ciphertext_size host kem ≡ ok (length ct)
  pub secret_fits : shared_secret_size host kem ≡ ok (length ss)

pure_ok :
    {a b ct ss : List ℕ} (n : ℕ) {n' : ℕ}
    → pure {S = ℕ} {A = List ℕ × List ℕ} (a, b) n ≡ (ok (ct, ss), n')
    → (ct ≡ a) × (ss ≡ b)
pure_ok n h = ground arith

-- What a hybrid encapsulation that succeeded has called.
hybrid_encapsulated_parts :
    (host : Host) (classical_size pq_size : Outcome ℕ)
    (classical pq : PublicKey → Action ℕ (List ℕ × List ℕ)) (pk : PublicKey) (i : ℕ)
    {ct ss : List ℕ} {i' : ℕ}
    → hybrid_encapsulate host classical_size pq_size classical pq pk i ≡ (ok (ct, ss), i')
    → (x : PublicKey) × (y : PublicKey) × (m : ℕ) × (n : ℕ) × (n' : ℕ) × (cct : List ℕ)
      × (css : List ℕ) × (pct : List ℕ) × (pss : List ℕ) × (classical x m ≡ (ok (cct, css), n))
      × (pq y n ≡ (ok (pct, pss), n'))
      × (ct ≡ cct ++ pct)
      × (length ss ≡ 32)
hybrid_encapsulated_parts host classical_size pq_size classical pq pk i e =
    let (bytes, i1, e1, h1) = >>=-eq_ok (lift (public_bytes host pk)) _ i e in
    let (size, i2, e2, h2) = >>=-eq_ok (lift classical_size) _ i1 h1 in
    let (pq_part, i3, e3, h3) = >>=-eq_ok (lift pq_size) _ i2 h2 in
    let (u, i4, e4, h4) =
      >>=-eq_ok (fail_if (ltb (length bytes) (size + pq_part)) invalid_hybrid_public_key) _ i3 h3 in
    let (c, i5, e5, h5) = >>=-eq_ok (classical (raw_public (take size bytes))) _ i4 h4 in
    let (p, i6, e6, h6) = >>=-eq_ok (pq (raw_public (drop size bytes))) _ i5 h5 in
    let (is_ct, is_ss) = pure_ok i6 h6 in
    (
      raw_public (take size bytes),
      raw_public (drop size bytes),
      i4,
      i5,
      i6,
      c.0,
      c.1,
      p.0,
      p.1,
      e5,
      e6,
      is_ct,
      ap length is_ss,
    )

module _ (host : Host) (fills : FillsBuffers host) (points : GivesPoints host) where
  x25519-Sealed :
      (pk : PublicKey) (i : ℕ) {ct ss : List ℕ} {i' : ℕ}
      → x25519_encapsulate host pk i ≡ (ok (ct, ss), i')
      → (length ct ≡ 32) × (length ss ≡ 32)
  unfolding x25519_encapsulate random_bytes
  x25519-Sealed pk i {ct} {ss} e = elim (Outcome-cases (public_bytes host pk)) [
    | inl (peer, known) ↦
        let sent : host.x25519 (host.rand i 32).0 host.basepoint ≡ ok ct = ground arith in
        let shared : host.x25519 (host.rand i 32).0 peer ≡ ok ss = ground arith in
        (points _ _ ct sent, points _ _ ss shared)
    | inr failed ↦ absurd (ground arith)
  ]

  -- For X25519, the ML-KEM stubs and the hybrids of such that `NewHybridKEM` builds, of any depth, and
  -- whatever the public key, a ciphertext and a secret that `Encapsulate` returns have the sizes that the KEM reports, if crypto/rand fills its buffers and
  -- X25519 gives 32 bytes.
  pub encapsulate-Sealed :
      (kem : Kem) (pk : PublicKey) (i : ℕ) {ct ss : List ℕ} {i' : ℕ}
      → IsPlain kem
      → encapsulate host kem pk i ≡ (ok (ct, ss), i')
      → Sealed host kem ct ss
  unfolding encapsulate ciphertext_size shared_secret_size stub_encapsulate random_bytes_unchecked
  encapsulate-Sealed x25519_kem pk i r e =
      let (ct_size, ss_size) = x25519-Sealed pk i e in
      record { ciphertext_fits = ap ok (sym ct_size); secret_fits = ap ok (sym ss_size) }
  encapsulate-Sealed mlkem768_type pk i r e = ground (arith, fills i 1088, fills (suc i) 32)
  encapsulate-Sealed mlkem1024_type pk i r e = ground (arith, fills i 1568, fills (suc i) 32)
  encapsulate-Sealed (hybrid_kem c p) pk i r e =
      let (x, y, m, n, n', cct, css, pct, pss, ce, pe, is_ct, ss_size) =
        hybrid_encapsulated_parts host (public_key_size host c) (public_key_size host p)
          (encapsulate host c) (encapsulate host p) pk i e in
      let cf = encapsulate-Sealed c x m r.0 ce in
      let pf = encapsulate-Sealed p y n r.1 pe in
      record {
        ciphertext_fits =
            ground (arith, cf.ciphertext_fits, pf.ciphertext_fits, is_ct, length-append cct pct);
        secret_fits = ap ok (sym ss_size);
      }
  encapsulate-Sealed real_mlkem768 pk i r e = absurd r
  encapsulate-Sealed real_mlkem1024 pk i r e = absurd r
  encapsulate-Sealed hybrid_mlkem pk i r e = absurd r
  encapsulate-Sealed nil_kem pk i r e = absurd r
