-- ===== src/Crypto/Derive.antt =====
-- crypto.go: key derivation, AEADs, the Finished MAC and the cookies.
use qzmq.Common.{
  ℕ, Bool, ◌==◌, List, ◌++◌, length, Outcome, ok, err, panic, Action, unsupported_aead,
}
use qzmq.Common.Int.{ℤ}
use qzmq.Common.Text.{text}
use qzmq.Options.{
  AeadAlgorithm, HashAlgorithm, aes256_gcm, chacha20_poly1305, sha256, sha384, sha512, blake3,
}
use qzmq.Crypto.Host.{Host, HashFunction, sha256_new, sha384_new, sha512_new, Aead}
use qzmq.Crypto.Sign.{read_stream}
use qzmq.Crypto.Parts.{random_bytes_unchecked}

pub record KeySet : Type 0 where
  pub client_key : List ℕ
  pub server_key : List ℕ
  pub exporter_secret : List ℕ

-- The `switch` of `deriveKeys`: BLAKE3 and unknown values fall back to SHA-256.
unfoldable pub hash_function : HashAlgorithm → HashFunction
hash_function sha256 = sha256_new
hash_function sha384 = sha384_new
hash_function sha512 = sha512_new
hash_function blake3 = sha256_new
hash_function (HashAlgorithm.other n) = sha256_new

-- `validateCookie`; the age is not looked at.
unfoldable pub validate_cookie : List ℕ → ℤ → Bool
validate_cookie cookie max_age = length cookie == 32

module _ (host : Host) where
  unfoldable pub create_aead : AeadAlgorithm → List ℕ → Outcome Aead
  create_aead aes256_gcm key = elim (host.aes_new_cipher key) [
    | ok _ ↦ elim (host.new_gcm key) [
      | ok _ ↦ ok (record { algorithm = aes256_gcm; key = key })
      | err e ↦ err e
      | panic ↦ panic
    ]
    | err e ↦ err e
    | panic ↦ panic
  ]
  create_aead chacha20_poly1305 key = elim (host.chacha_new key) [
    | ok _ ↦ ok (record { algorithm = chacha20_poly1305; key = key })
    | err e ↦ err e
    | panic ↦ panic
  ]
  create_aead (AeadAlgorithm.other n) key = err unsupported_aead

  -- Three reads of 32 bytes from one HKDF stream. It returns no error.
  unfoldable pub derive_keys : List ℕ → List ℕ → HashAlgorithm → KeySet
  derive_keys kem_secret ecdhe_secret hash_algo =
      let kdf =
        host.hkdf (hash_function hash_algo) (kem_secret ++ ecdhe_secret) (text "QZMQ-v1-Salt")
          (text "QZMQ-v1-Keys") in
      record {
        client_key = read_stream kdf 0 32;
        server_key = read_stream kdf 32 32;
        exporter_secret = read_stream kdf 64 32;
      }

  unfoldable pub compute_finished_mac : List ℕ → List ℕ → List ℕ
  compute_finished_mac key transcript = host.hmac_sha256 key transcript

  unfoldable pub generate_cookie : Action ℕ (List ℕ)
  generate_cookie = random_bytes_unchecked host 32
