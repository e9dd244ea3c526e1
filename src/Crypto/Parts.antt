-- ===== src/Crypto/Parts.antt =====
-- crypto.go and mlkem_integration.go: `getKEM`, and the KEMs that are made of no others.
use Prim.Native.Nat.{bit_xor}
use qzmq.Common.{
  ℕ, zero, suc, List, [], ◌∷◌, Outcome, ok, err, panic, Action, ◌>>=◌, ◌>>◌, pure, lift,
  unsupported_kem, invalid_public_key_type, invalid_private_key_type,
}
use qzmq.Options.{
  KemAlgorithm, x25519, mlkem768, mlkem1024, hybrid_x25519_mlkem768, hybrid_x25519_mlkem1024,
}
use qzmq.Crypto.Host.{Host, MlKemLevel}
use qzmq.Crypto.Keys.{
  PublicKey, PrivateKey, Kem, raw_public, mlkem_public, hybrid_public, nil_public, raw_private,
  mlkem_private, hybrid_private, nil_private, x25519_kem, mlkem768_type, mlkem1024_type, nil_kem,
  hybrid_kem, public_bytes, private_bytes,
}
use qzmq.Crypto.Sign.{draw, check_error}

-- `&HybridKEM{}`: both fields are nil interfaces.
unfoldable pub get_kem : KemAlgorithm → Outcome Kem
get_kem x25519 = ok x25519_kem
get_kem mlkem768 = ok mlkem768_type
get_kem mlkem1024 = ok mlkem1024_type
get_kem hybrid_x25519_mlkem768 = ok (hybrid_kem nil_kem nil_kem)
get_kem hybrid_x25519_mlkem1024 = err unsupported_kem
get_kem (KemAlgorithm.other n) = err unsupported_kem

-- `NewHybridKEM`.
abbrev pub new_hybrid_kem : Kem → Kem → Kem
new_hybrid_kem classical pq = hybrid_kem classical pq

-- The loop `sharedSecret[i] = classicalSS[i] ^ pqSS[i]`: a panic where a secret is too short.
unfoldable pub xor_bytes : ℕ → List ℕ → List ℕ → Outcome (List ℕ)
xor_bytes zero xs ys = ok []
xor_bytes (suc n) [] ys = panic
xor_bytes (suc n) (a ∷ xs) [] = panic
xor_bytes (suc n) (a ∷ xs) (b ∷ ys) = elim (xor_bytes n xs ys) [
  | ok rest ↦ ok (bit_xor a b ∷ rest)
  | err e ↦ err e
  | panic ↦ panic
]

module _ (host : Host) where
  -- A read of crypto/rand whose error is returned.
  unfoldable pub random_bytes : ℕ → Action ℕ (List ℕ)
  random_bytes n = do (bytes, failure) ← draw host n; lift (check_error failure); pure bytes

  -- A read of crypto/rand whose error is dropped.
  unfoldable pub random_bytes_unchecked : ℕ → Action ℕ (List ℕ)
  random_bytes_unchecked n = do (bytes, failure) ← draw host n; pure bytes

  unfoldable pub x25519_generate : Action ℕ (PublicKey × PrivateKey)
  x25519_generate = do
    priv ← random_bytes 32
    public ← lift (host.x25519 priv host.basepoint)
    let pk = raw_public public
    pure (pk, raw_private priv pk)

  unfoldable pub x25519_encapsulate : PublicKey → Action ℕ (List ℕ × List ℕ)
  x25519_encapsulate pk = do
    ephemeral ← random_bytes 32
    ephemeral_public ← lift (host.x25519 ephemeral host.basepoint)
    peer ← lift (public_bytes host pk)
    secret ← lift (host.x25519 ephemeral peer)
    pure (ephemeral_public, secret)

  unfoldable pub x25519_decapsulate : PrivateKey → List ℕ → Action ℕ (List ℕ)
  x25519_decapsulate sk ciphertext = do
    priv ← lift (private_bytes host sk)
    lift (host.x25519 priv ciphertext)

  -- The stubs of ML-KEM, whose keys, ciphertexts and secrets are random bytes.
  unfoldable pub stub_generate : ℕ → ℕ → Action ℕ (PublicKey × PrivateKey)
  stub_generate public_size private_size = do
    public ← random_bytes_unchecked public_size
    priv ← random_bytes_unchecked private_size
    let pk = raw_public public
    pure (pk, raw_private priv pk)

  unfoldable pub stub_encapsulate : ℕ → Action ℕ (List ℕ × List ℕ)
  stub_encapsulate ciphertext_size = do
    ct ← random_bytes_unchecked ciphertext_size
    ss ← random_bytes_unchecked 32
    pure (ct, ss)

  unfoldable pub stub_decapsulate : Action ℕ (List ℕ)
  stub_decapsulate = random_bytes_unchecked 32

  -- `RealMLKEM768` and `RealMLKEM1024`; the library reads `rand.Reader` itself.
  unfoldable pub real_generate : MlKemLevel → Action ℕ (PublicKey × PrivateKey)
  real_generate level i = elim (host.mlkem_generate level i) [
    | ok (public, priv) ↦
        (ok (mlkem_public public, mlkem_private priv (mlkem_public public)), suc i)
    | err e ↦ (err e, suc i)
    | panic ↦ (panic, suc i)
  ]

  unfoldable pub real_encapsulate : PublicKey → Action ℕ (List ℕ × List ℕ)
  real_encapsulate (mlkem_public k) i = (host.mlkem_encapsulate k i, suc i)
  real_encapsulate (raw_public bs) i = (err invalid_public_key_type, i)
  real_encapsulate (hybrid_public c p) i = (err invalid_public_key_type, i)
  real_encapsulate nil_public i = (err invalid_public_key_type, i)

  unfoldable pub real_decapsulate : PrivateKey → List ℕ → Action ℕ (List ℕ)
  real_decapsulate (mlkem_private k pk) ct = lift (host.mlkem_decapsulate k ct)
  real_decapsulate (raw_private bs pk) ct = lift (err invalid_private_key_type)
  real_decapsulate (hybrid_private c p pk) ct = lift (err invalid_private_key_type)
  real_decapsulate nil_private ct = lift (err invalid_private_key_type)
