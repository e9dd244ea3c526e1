-- ===== src/Crypto/Encapsulation.antt =====
-- crypto.go and mlkem_integration.go: the hybrid KEMs, and the methods by the KEM's type.
use qzmq.Common.{
  ℕ, ◌+◌, ltb, List, [], ◌++◌, take, drop, replicate, length, Outcome, err, panic, Action, ◌>>=◌,
  ◌>>◌, pure, lift, fail_if, invalid_hybrid_public_key, invalid_public_key_type,
  invalid_private_key_type, ciphertext_too_short,
}
use qzmq.Common.Text.{text}
use qzmq.Crypto.Host.{Host, level768, level1024, sha256_new}
use qzmq.Crypto.Keys.{
  PublicKey, PrivateKey, Kem, raw_public, mlkem_public, hybrid_public, nil_public, raw_private,
  mlkem_private, hybrid_private, nil_private, x25519_kem, mlkem768_type, mlkem1024_type,
  real_mlkem768, real_mlkem1024, hybrid_mlkem, nil_kem, hybrid_kem, public_bytes, private_bytes,
}
use qzmq.Crypto.Sign.{read_stream}
use qzmq.Crypto.Parts.{
  x25519_generate, x25519_encapsulate, x25519_decapsulate, stub_generate, stub_encapsulate,
  stub_decapsulate, real_generate, real_encapsulate, real_decapsulate, xor_bytes,
}
use qzmq.Crypto.Sizes.{public_key_size}

module _ (host : Host) where
  -- `HybridKEM.GenerateKeyPair`, from the calls of its two parts.
  abbrev pub hybrid_generate :
      Action ℕ (PublicKey × PrivateKey)
      → Action ℕ (PublicKey × PrivateKey)
      → Action ℕ (PublicKey × PrivateKey)
  hybrid_generate classical pq = do
    (classical_pk, classical_sk) ← classical
    (pq_pk, pq_sk) ← pq
    classical_public ← lift (public_bytes host classical_pk)
    pq_public ← lift (public_bytes host pq_pk)
    classical_private ← lift (private_bytes host classical_sk)
    pq_private ← lift (private_bytes host pq_sk)
    let pk = raw_public (classical_public ++ pq_public)
    pure (pk, raw_private (classical_private ++ pq_private) pk)

  -- `HybridMLKEM.GenerateKeyPair`.
  unfoldable pub hybrid_mlkem_generate : Action ℕ (PublicKey × PrivateKey)
  hybrid_mlkem_generate = do
    (classical_pk, classical_sk) ← x25519_generate host
    (pq_pk, pq_sk) ← real_generate host level768
    let pk = hybrid_public classical_pk pq_pk
    pure (pk, hybrid_private classical_sk pq_sk pk)

  -- `GenerateKeyPair`.
  unfoldable pub generate_key_pair : Kem → Action ℕ (PublicKey × PrivateKey)
  generate_key_pair x25519_kem = x25519_generate host
  generate_key_pair mlkem768_type = stub_generate host 1184 2400
  generate_key_pair mlkem1024_type = stub_generate host 1568 3168
  generate_key_pair real_mlkem768 = real_generate host level768
  generate_key_pair real_mlkem1024 = real_generate host level1024
  generate_key_pair hybrid_mlkem = hybrid_mlkem_generate
  generate_key_pair nil_kem = lift panic
  generate_key_pair (hybrid_kem c p) = hybrid_generate (generate_key_pair c) (generate_key_pair p)

  -- `HybridKEM.Encapsulate`, from the sizes and the calls of its two parts.
  abbrev pub hybrid_encapsulate :
      Outcome ℕ
      → Outcome ℕ
      → (PublicKey → Action ℕ (List ℕ × List ℕ))
      → (PublicKey → Action ℕ (List ℕ × List ℕ))
      → PublicKey
      → Action ℕ (List ℕ × List ℕ)
  hybrid_encapsulate classical_size pq_size classical pq pk = do
    bytes ← lift (public_bytes host pk)
    size ← lift classical_size
    pq_part ← lift pq_size
    fail_if (ltb (length bytes) (size + pq_part)) invalid_hybrid_public_key
    (classical_ct, classical_ss) ← classical (raw_public (take size bytes))
    (pq_ct, pq_ss) ← pq (raw_public (drop size bytes))
    let kdf = host.hkdf sha256_new (classical_ss ++ pq_ss) (text "QZMQ-Hybrid-KEM") []
    pure (classical_ct ++ pq_ct, read_stream kdf 0 32)

  -- `HybridMLKEM.Encapsulate`.
  unfoldable pub hybrid_mlkem_encapsulate : PublicKey → Action ℕ (List ℕ × List ℕ)
  hybrid_mlkem_encapsulate (hybrid_public classical pq) = do
    (classical_ct, classical_ss) ← x25519_encapsulate host classical
    (pq_ct, pq_ss) ← real_encapsulate host pq
    secret ← lift (xor_bytes 32 classical_ss pq_ss)
    pure (classical_ct ++ pq_ct, secret)
  hybrid_mlkem_encapsulate (raw_public bs) = lift (err invalid_public_key_type)
  hybrid_mlkem_encapsulate (mlkem_public k) = lift (err invalid_public_key_type)
  hybrid_mlkem_encapsulate nil_public = lift (err invalid_public_key_type)

  -- `Encapsulate`: the ciphertext and the shared secret.
  unfoldable pub encapsulate : Kem → PublicKey → Action ℕ (List ℕ × List ℕ)
  encapsulate x25519_kem pk = x25519_encapsulate host pk
  encapsulate mlkem768_type pk = stub_encapsulate host 1088
  encapsulate mlkem1024_type pk = stub_encapsulate host 1568
  encapsulate real_mlkem768 pk = real_encapsulate host pk
  encapsulate real_mlkem1024 pk = real_encapsulate host pk
  encapsulate hybrid_mlkem pk = hybrid_mlkem_encapsulate pk
  encapsulate nil_kem pk = lift panic
  encapsulate (hybrid_kem c p) pk =
      hybrid_encapsulate (public_key_size host c) (public_key_size host p) (encapsulate c)
        (encapsulate p) pk

  -- `HybridMLKEM.Decapsulate`.
  unfoldable pub hybrid_mlkem_decapsulate : PrivateKey → List ℕ → Action ℕ (List ℕ)
  hybrid_mlkem_decapsulate (hybrid_private classical pq pk) ciphertext = do
    fail_if (ltb (length ciphertext) 32) ciphertext_too_short
    classical_ss ← x25519_decapsulate host classical (take 32 ciphertext)
    pq_ss ← real_decapsulate host pq (drop 32 ciphertext)
    lift (xor_bytes 32 classical_ss pq_ss)
  hybrid_mlkem_decapsulate (raw_private bs pk) ciphertext = lift (err invalid_private_key_type)
  hybrid_mlkem_decapsulate (mlkem_private k pk) ciphertext = lift (err invalid_private_key_type)
  hybrid_mlkem_decapsulate nil_private ciphertext = lift (err invalid_private_key_type)

  -- `HybridKEM.Decapsulate` returns 32 zero bytes.
  abbrev pub hybrid_decapsulate : PrivateKey → List ℕ → Action ℕ (List ℕ)
  hybrid_decapsulate sk ct = pure (replicate 32 0)

  -- `Decapsulate`.
  unfoldable pub decapsulate : Kem → PrivateKey → List ℕ → Action ℕ (List ℕ)
  decapsulate x25519_kem sk ct = x25519_decapsulate host sk ct
  decapsulate mlkem768_type sk ct = stub_decapsulate host
  decapsulate mlkem1024_type sk ct = stub_decapsulate host
  decapsulate real_mlkem768 sk ct = real_decapsulate host sk ct
  decapsulate real_mlkem1024 sk ct = real_decapsulate host sk ct
  decapsulate hybrid_mlkem sk ct = hybrid_mlkem_decapsulate sk ct
  decapsulate nil_kem sk ct = lift panic
  decapsulate (hybrid_kem c p) sk ct = hybrid_decapsulate sk ct
