-- ===== src/Crypto/Agreement.antt =====
-- The two ends of a key encapsulation.
use qzmq.Common.{
  ℕ, suc, ◌≡◌, ap, List, ◌++◌, take, drop, length, ok, arith, take-append, drop-append,
  length-append, ◌>>=◌, pure, lift, >>=-eq_ok,
}
use qzmq.Crypto.Host.{Host, MlKemLevel, level768, level1024}
use qzmq.Crypto.Keys.{
  PublicKey, PrivateKey, Kem, raw_public, mlkem_public, hybrid_public, raw_private, mlkem_private,
  hybrid_private, x25519_kem, mlkem768_type, mlkem1024_type, real_mlkem768, real_mlkem1024,
  hybrid_mlkem, nil_kem, hybrid_kem, public_bytes, private_bytes,
}
use qzmq.Crypto.Parts.{
  random_bytes, x25519_generate, x25519_encapsulate, x25519_decapsulate, real_generate,
  real_encapsulate, real_decapsulate, xor_bytes,
}
use qzmq.Crypto.Encapsulation.{
  generate_key_pair, encapsulate, decapsulate, hybrid_mlkem_generate, hybrid_mlkem_encapsulate,
  hybrid_mlkem_decapsulate,
}

-- The documented behaviour of X25519 and of ML-KEM: Diffie-Hellman commutes, its results have 32
-- bytes, and decapsulation inverts encapsulation.
pub record IsSound (host : Host) : Type 0 where
  pub commutes :
      (a b pa pb s : List ℕ)
      → host.x25519 a host.basepoint ≡ ok pa
      → host.x25519 b host.basepoint ≡ ok pb
      → host.x25519 b pa ≡ ok s
      → host.x25519 a pb ≡ ok s
  pub point_size : (k p s : List ℕ) → host.x25519 k p ≡ ok s → length s ≡ 32
  pub decapsulates :
      (level : MlKemLevel) (i j public private : ℕ) (ct ss : List ℕ)
      → host.mlkem_generate level i ≡ ok (public, private)
      → host.mlkem_encapsulate public j ≡ ok (ct, ss)
      → host.mlkem_decapsulate private ct ≡ ok ss

-- The KEMs that do not stand on a stub or on another KEM's interface.
abbrev pub IsReal : Kem → Type 0
IsReal x25519_kem = Unit
IsReal real_mlkem768 = Unit
IsReal real_mlkem1024 = Unit
IsReal hybrid_mlkem = Unit
IsReal mlkem768_type = ⊥
IsReal mlkem1024_type = ⊥
IsReal nil_kem = ⊥
IsReal (hybrid_kem c p) = ⊥

-- What a call that succeeds has computed.
hybrid_sealed :
    (cct css pct pss : List ℕ) (n : ℕ) {ct ss : List ℕ} {n' : ℕ}
    → ◌>>=◌ {B = List ℕ × List ℕ}
        (lift (xor_bytes 32 css pss))
        (λ secret. pure (cct ++ pct, secret))
        n
      ≡ (ok (ct, ss), n')
    → (xor_bytes 32 css pss ≡ ok ss) × (ct ≡ cct ++ pct)
hybrid_sealed cct css pct pss n h = ground arith

module _ (host : Host) (i : ℕ) where
  pub x25519_generated :
      {pk : PublicKey} {sk : PrivateKey} {i' : ℕ}
      → x25519_generate host i ≡ (ok (pk, sk), i')
      → (p : List ℕ) × (host.x25519 (host.rand i 32).0 host.basepoint ≡ ok p)
        × (pk ≡ raw_public p)
        × (sk ≡ raw_private (host.rand i 32).0 (raw_public p))
  unfolding x25519_generate random_bytes
  x25519_generated g = ground arith

  x25519_encapsulated :
      (p : List ℕ) {ct ss : List ℕ} {i' : ℕ}
      → x25519_encapsulate host (raw_public p) i ≡ (ok (ct, ss), i')
      → (host.x25519 (host.rand i 32).0 host.basepoint ≡ ok ct)
        × (host.x25519 (host.rand i 32).0 p ≡ ok ss)
  unfolding x25519_encapsulate random_bytes public_bytes
  x25519_encapsulated p e = ground arith

  real_generated :
      (level : MlKemLevel) {pk : PublicKey} {sk : PrivateKey} {i' : ℕ}
      → real_generate host level i ≡ (ok (pk, sk), i')
      → (public : ℕ) × (priv : ℕ) × (host.mlkem_generate level i ≡ ok (public, priv))
        × (pk ≡ mlkem_public public)
        × (sk ≡ mlkem_private priv (mlkem_public public))
  unfolding real_generate
  real_generated level g = ground arith

  hybrid_generated :
      {pk : PublicKey} {sk : PrivateKey} {i' : ℕ}
      → hybrid_mlkem_generate host i ≡ (ok (pk, sk), i')
      → (cpk : PublicKey) × (csk : PrivateKey) × (ppk : PublicKey) × (psk : PrivateKey) × (m : ℕ)
        × (x25519_generate host i ≡ (ok (cpk, csk), m))
        × (real_generate host level768 m ≡ (ok (ppk, psk), i'))
        × (pk ≡ hybrid_public cpk ppk)
        × (sk ≡ hybrid_private csk psk (hybrid_public cpk ppk))
  unfolding hybrid_mlkem_generate
  hybrid_generated g =
      let (c, m, cg, g1) = >>=-eq_ok (x25519_generate host) _ i g in
      let (p, n, pg, g2) = >>=-eq_ok (real_generate host level768) _ m g1 in
      (c.0, c.1, p.0, p.1, m, cg, cc, cc, cc)

  hybrid_encapsulated :
      (cpk ppk : PublicKey) {ct ss : List ℕ} {i' : ℕ}
      → hybrid_mlkem_encapsulate host (hybrid_public cpk ppk) i ≡ (ok (ct, ss), i')
      → (cct : List ℕ) × (css : List ℕ) × (pct : List ℕ) × (pss : List ℕ) × (m : ℕ) × (n : ℕ)
        × (x25519_encapsulate host cpk i ≡ (ok (cct, css), m))
        × (real_encapsulate host ppk m ≡ (ok (pct, pss), n))
        × (xor_bytes 32 css pss ≡ ok ss)
        × (ct ≡ cct ++ pct)
  unfolding hybrid_mlkem_encapsulate
  hybrid_encapsulated cpk ppk e =
      let (c, m, ce, e1) = >>=-eq_ok (x25519_encapsulate host cpk) _ i e in
      let (p, n, pe, e2) = >>=-eq_ok (real_encapsulate host ppk) _ m e1 in
      let (mixed, is_ct) = hybrid_sealed c.0 c.1 p.0 p.1 n e2 in
      (c.0, c.1, p.0, p.1, m, n, ce, pe, mixed, is_ct)

module _ (host : Host) (sound : IsSound host) where
  x25519_agrees :
      (i j k : ℕ) {pk : PublicKey} {sk : PrivateKey} {ct ss : List ℕ} {i' j' : ℕ}
      → x25519_generate host i ≡ (ok (pk, sk), i')
      → x25519_encapsulate host pk j ≡ (ok (ct, ss), j')
      → (x25519_decapsulate host sk ct k ≡ (ok ss, k)) × (length ct ≡ 32)
  unfolding x25519_decapsulate private_bytes
  x25519_agrees i j k {pk} {sk} {ct} {ss} {i'} {j'} g e =
      let (p, made, is_pk, is_sk) = x25519_generated host i g in
      let (sent, shared) = x25519_encapsulated host j p (rw is_pk at e) in
      (
        rw is_sk (ap (λ r. (r, k)) (sound.commutes _ _ p ct ss made sent shared)),
        sound.point_size _ _ ct sent,
      )

  real_agrees :
      (level : MlKemLevel) (i j k : ℕ) {pk : PublicKey} {sk : PrivateKey} {ct ss : List ℕ}
      {i' j' : ℕ}
      → real_generate host level i ≡ (ok (pk, sk), i')
      → real_encapsulate host pk j ≡ (ok (ct, ss), j')
      → real_decapsulate host sk ct k ≡ (ok ss, k)
  unfolding real_encapsulate real_decapsulate
  real_agrees level i j k {pk} {sk} {ct} {ss} {i'} {j'} g e =
      let (public, priv, made, is_pk, is_sk) = real_generated host i level g in
      let e' : (host.mlkem_encapsulate public j, suc j) ≡ (ok (ct, ss), j') = rw is_pk at e in
      rw is_sk
        (ap (λ r. (r, k)) (sound.decapsulates level i j public priv ct ss made (ap (λ t. t.0) e')))

  -- The ciphertext is cut where the classical part ends.
  hybrid_opens :
      (csk psk : PrivateKey) (pk : PublicKey) (cct css pct pss : List ℕ) (k : ℕ) {ss : List ℕ}
      → length cct ≡ 32
      → x25519_decapsulate host csk cct k ≡ (ok css, k)
      → real_decapsulate host psk pct k ≡ (ok pss, k)
      → xor_bytes 32 css pss ≡ ok ss
      → hybrid_mlkem_decapsulate host (hybrid_private csk psk pk) (cct ++ pct) k ≡ (ok ss, k)
  unfolding hybrid_mlkem_decapsulate
  hybrid_opens csk psk pk cct css pct pss k size classical pq mixed =
      let front : take 32 (cct ++ pct) ≡ cct = rw (← size) (take-append cct pct) in
      let back : drop 32 (cct ++ pct) ≡ pct = rw (← size) (drop-append cct pct) in
      ground (arith, front, back, length-append cct pct)

  hybrid_agrees :
      (i j k : ℕ) {pk : PublicKey} {sk : PrivateKey} {ct ss : List ℕ} {i' j' : ℕ}
      → hybrid_mlkem_generate host i ≡ (ok (pk, sk), i')
      → hybrid_mlkem_encapsulate host pk j ≡ (ok (ct, ss), j')
      → hybrid_mlkem_decapsulate host sk ct k ≡ (ok ss, k)
  hybrid_agrees i j k {pk} {sk} {ct} {ss} {i'} {j'} g e =
      let (cpk, csk, ppk, psk, m, cg, pg, is_pk, is_sk) = hybrid_generated host i g in
      let (cct, css, pct, pss, n, n', ce, pe, mixed, is_ct) =
        hybrid_encapsulated host j cpk ppk (rw is_pk at e) in
      let (classical, size) = x25519_agrees i j k cg ce in
      rw (is_sk, is_ct)
        (hybrid_opens csk psk (hybrid_public cpk ppk) cct css pct pss k size classical
          (real_agrees level768 m n k pg pe) mixed)

  -- Whoever draws a key pair and whoever encapsulates to its public key end up with one secret: for
  -- each KEM over the real primitives, if both calls succeed, then decapsulation of the ciphertext
  -- with the private key succeeds, returns the encapsulated secret and reads no randomness.
  pub decapsulate-encapsulate :
      (kem : Kem) (i j k : ℕ) {pk : PublicKey} {sk : PrivateKey} {ct ss : List ℕ} {i' j' : ℕ}
      → IsReal kem
      → generate_key_pair host kem i ≡ (ok (pk, sk), i')
      → encapsulate host kem pk j ≡ (ok (ct, ss), j')
      → decapsulate host kem sk ct k ≡ (ok ss, k)
  unfolding generate_key_pair encapsulate decapsulate
  decapsulate-encapsulate x25519_kem i j k r g e = (x25519_agrees i j k g e).0
  decapsulate-encapsulate real_mlkem768 i j k r g e = real_agrees level768 i j k g e
  decapsulate-encapsulate real_mlkem1024 i j k r g e = real_agrees level1024 i j k g e
  decapsulate-encapsulate hybrid_mlkem i j k r g e = hybrid_agrees i j k g e
  decapsulate-encapsulate mlkem768_type i j k r g e = absurd r
  decapsulate-encapsulate mlkem1024_type i j k r g e = absurd r
  decapsulate-encapsulate nil_kem i j k r g e = absurd r
  decapsulate-encapsulate (hybrid_kem c p) i j k r g e = absurd r
