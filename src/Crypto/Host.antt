-- ===== src/Crypto/Host.antt =====
-- What the code calls and does not implement, as functions of their arguments. A read of crypto/rand
-- is its number and its length; it fills a buffer and may report an error.
use qzmq.Common.{ℕ, List, Option, Outcome, Error, Bool, length, ◌≡◌, none}
use qzmq.Options.{AeadAlgorithm}

-- The hash functions that are handed to HKDF and HMAC.
pub data HashFunction : Type 0 where
  sha256_new sha384_new sha512_new : HashFunction

pub data MlKemLevel : Type 0 where
  level768 level1024 : MlKemLevel

-- A `cipher.AEAD` is the algorithm and the key that it was made with.
pub record Aead : Type 0 where
  pub algorithm : AeadAlgorithm
  pub key : List ℕ

-- The keys of luxfi/crypto/mlkem are opaque: a number stands for one.
pub record Host : Type 0 where
  pub rand : ℕ → ℕ → List ℕ × Option Error
  pub x25519 : List ℕ → List ℕ → Outcome (List ℕ)
  pub basepoint : List ℕ
  pub ed25519_generate : ℕ → Outcome (List ℕ × List ℕ)
  pub ed25519_sign : List ℕ → List ℕ → Outcome (List ℕ)
  pub ed25519_verify : List ℕ → List ℕ → List ℕ → Outcome Bool
  pub hmac_sha256 : List ℕ → List ℕ → List ℕ
  -- Byte `i` of the stream of `hkdf.New(hash, secret, salt, info)`.
  pub hkdf : HashFunction → List ℕ → List ℕ → List ℕ → ℕ → ℕ
  pub aes_new_cipher : List ℕ → Outcome (Unit {0})
  pub new_gcm : List ℕ → Outcome (Unit {0})
  pub chacha_new : List ℕ → Outcome (Unit {0})
  pub open_sealed : Aead → List ℕ → List ℕ → List ℕ → Outcome (List ℕ)
  pub seal : Aead → List ℕ → List ℕ → List ℕ → List ℕ
  pub mlkem_generate : MlKemLevel → ℕ → Outcome (ℕ × ℕ)
  pub mlkem_encapsulate : ℕ → ℕ → Outcome (List ℕ × List ℕ)
  pub mlkem_decapsulate : ℕ → List ℕ → Outcome (List ℕ)
  pub mlkem_public_bytes : ℕ → List ℕ
  pub mlkem_private_bytes : ℕ → List ℕ
  pub mlkem_public_key_size : MlKemLevel → ℕ
  pub mlkem_private_key_size : MlKemLevel → ℕ
  pub mlkem_ciphertext_size : MlKemLevel → ℕ
  pub mlkem_shared_key_size : MlKemLevel → ℕ

-- crypto/rand fills the buffer that it is given, and its length does not change.
abbrev pub FillsBuffers : Host → Type 0
FillsBuffers host = (i n : ℕ) → length (host.rand i n).0 ≡ n

-- crypto/rand reports no error.
abbrev pub NeverFails : Host → Type 0
NeverFails host = (i n : ℕ) → (host.rand i n).1 ≡ none
