-- ===== src/Crypto/Tests.antt =====
-- Runs of the KEMs and of the key derivation, and the theorems at them.
use qzmq.Common.{ℕ, List, [], ◌∷◌, ◌++◌, ◌≡◌, refl, replicate, ok}
use qzmq.Common.Text.{text}
use qzmq.Options.{sha384}
use qzmq.Crypto.Sign.{read_stream}
use qzmq.Crypto.Derive.{KeySet, derive_keys}
use qzmq.Crypto.Keys.{
  Kem, x25519_kem, mlkem768_type, private_bytes, PublicKey, PrivateKey, raw_public, mlkem_public,
  hybrid_public, raw_private, mlkem_private, hybrid_private, hybrid_mlkem, public_bytes,
}
use qzmq.Crypto.Parts.{
  new_hybrid_kem, random_bytes_unchecked, stub_generate, stub_encapsulate, random_bytes,
  x25519_generate, x25519_encapsulate, real_generate, real_encapsulate, xor_bytes,
}
use qzmq.Crypto.Encapsulation.{
  generate_key_pair, encapsulate, decapsulate, hybrid_mlkem_generate, hybrid_mlkem_encapsulate,
}
use qzmq.Crypto.Advertised.{Fits, Sealed, generate_key_pair-Fits, encapsulate-Sealed}
use qzmq.Crypto.Host.{sha256_new}
use qzmq.Crypto.Sizes.{public_key_size}
use qzmq.Crypto.Agreement.{decapsulate-encapsulate}
use qzmq.Crypto.Sample.{
  sample_host, sample_host-FillsBuffers, sample_host-GivesPoints, sample_host-IsSound, point,
}

-- A key pair of `HybridMLKEM` from the reads 0 and 1, and an encapsulation from the reads 4 and 5.
abbrev sample_public : PublicKey
sample_public = hybrid_public (raw_public (point 1)) (mlkem_public 1)

abbrev sample_private : PrivateKey
sample_private =
    hybrid_private (raw_private (replicate 32 1) (raw_public (point 1)))
      (mlkem_private 1 (mlkem_public 1)) sample_public

sample_pair : generate_key_pair sample_host hybrid_mlkem 0 ≡ (ok (sample_public, sample_private), 2)
unfolding generate_key_pair hybrid_mlkem_generate x25519_generate real_generate random_bytes
sample_pair = refl

abbrev sample_ciphertext : List ℕ
sample_ciphertext = point 5 ++ (1 ∷ 5 ∷ [])

abbrev sample_secret : List ℕ
sample_secret = 0 ∷ replicate 31 6

sample_sealed :
    encapsulate sample_host hybrid_mlkem sample_public 4
    ≡ (ok (sample_ciphertext, sample_secret), 6)
unfolding encapsulate hybrid_mlkem_encapsulate x25519_encapsulate real_encapsulate random_bytes
    xor_bytes public_bytes
sample_sealed = refl

decapsulate-encapsulate_example :
    decapsulate sample_host hybrid_mlkem sample_private sample_ciphertext 9 ≡ (ok sample_secret, 9)
decapsulate-encapsulate_example =
    decapsulate-encapsulate sample_host sample_host-IsSound hybrid_mlkem 0 4 9 tt sample_pair
      sample_sealed

abbrev sample_keys : KeySet
sample_keys = derive_keys sample_host (1 ∷ 2 ∷ []) (3 ∷ []) sha384

-- The hybrid of X25519 and the stub of ML-KEM-768: a key pair from the reads 0 to 2, and an
-- encapsulation from the reads 3 to 5.
abbrev sample_kem : Kem
sample_kem = new_hybrid_kem x25519_kem mlkem768_type

abbrev plain_public : PublicKey
plain_public = raw_public (point 1 ++ replicate 1184 2)

abbrev plain_private : PrivateKey
plain_private = raw_private (replicate 32 1 ++ replicate 2400 3) plain_public

plain_pair : generate_key_pair sample_host sample_kem 0 ≡ (ok (plain_public, plain_private), 3)
unfolding generate_key_pair x25519_generate stub_generate random_bytes random_bytes_unchecked
    public_bytes private_bytes
plain_pair = refl

generate_key_pair-Fits_example : Fits sample_host sample_kem plain_public plain_private
generate_key_pair-Fits_example =
    generate_key_pair-Fits sample_host sample_host-FillsBuffers sample_host-GivesPoints sample_kem 0
      (tt, tt) plain_pair

abbrev plain_ciphertext : List ℕ
plain_ciphertext = point 4 ++ replicate 1088 5

abbrev plain_secret : List ℕ
plain_secret =
    read_stream
      (sample_host.hkdf sha256_new (point 5 ++ replicate 32 6) (text "QZMQ-Hybrid-KEM") []) 0 32

plain_sealed :
    encapsulate sample_host sample_kem plain_public 3 ≡ (ok (plain_ciphertext, plain_secret), 6)
unfolding encapsulate x25519_encapsulate stub_encapsulate random_bytes random_bytes_unchecked
    public_bytes public_key_size
plain_sealed = refl

encapsulate-Sealed_example : Sealed sample_host sample_kem plain_ciphertext plain_secret
encapsulate-Sealed_example =
    encapsulate-Sealed sample_host sample_host-FillsBuffers sample_host-GivesPoints sample_kem
      plain_public 3 (tt, tt) plain_sealed
