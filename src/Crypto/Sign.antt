-- ===== src/Crypto/Sign.antt =====
-- crypto.go: the signers.
use qzmq.Common.{
  ℕ, Bool, leb, if◌then◌else◌, true, false, zero, suc, List, [], ◌∷◌, take, replicate, copy, length,
  Outcome, Error, ok, err, panic, Action, Option, none, some, ◌>>=◌, ◌>>◌, pure, lift,
  unsupported_signature,
}
use qzmq.Common.Text.{text}
use qzmq.Options.{SignatureAlgorithm, ed25519, mldsa2, mldsa3}
use qzmq.Crypto.Host.{Host, sha512_new}

pub record VerifyingKey : Type 0 where
  pub content : List ℕ

pub record SigningKey : Type 0 where
  pub content : List ℕ
  pub public : VerifyingKey

-- `Ed25519Signer` and `MLDSASigner{level}`.
pub data Signer : Type 0 where
  ed25519_signer : Signer
  mldsa_signer : SignatureAlgorithm → Signer

unfoldable pub get_signer : SignatureAlgorithm → Outcome Signer
get_signer ed25519 = ok ed25519_signer
get_signer mldsa2 = ok (mldsa_signer mldsa2)
get_signer mldsa3 = ok (mldsa_signer mldsa3)
get_signer (SignatureAlgorithm.other n) = err unsupported_signature

abbrev pub is_mldsa3 : SignatureAlgorithm → Bool
is_mldsa3 mldsa3 = true
is_mldsa3 _ = false

abbrev pub verifying_key_size : Signer → ℕ
verifying_key_size ed25519_signer = 32
verifying_key_size (mldsa_signer level) = if is_mldsa3 level then 1952 else 1312

abbrev pub signature_size : Signer → ℕ
signature_size ed25519_signer = 64
signature_size (mldsa_signer level) = if is_mldsa3 level then 3293 else 2420

abbrev pub mldsa_private_key_size : SignatureAlgorithm → ℕ
mldsa_private_key_size level = if is_mldsa3 level then 4000 else 2528

-- `kdf.Read(buf)` with `n` bytes at the position that the reader has reached.
abbrev pub read_stream : (ℕ → ℕ) → ℕ → ℕ → List ℕ
read_stream stream position zero = []
read_stream stream position (suc n) = stream position ∷ read_stream stream (suc position) n

-- The next read of crypto/rand, for `n` bytes: the buffer afterwards, and the error.
abbrev pub draw : Host → ℕ → Action ℕ (List ℕ × Option Error)
draw host n i = (ok (host.rand i n), suc i)

abbrev pub check_error : Option Error → Outcome (Unit {0})
check_error none = ok tt
check_error (some e) = err e

module _ (host : Host) where
  unfoldable pub mldsa_generate : SignatureAlgorithm → Action ℕ SigningKey
  mldsa_generate level = do
    (seed, failure) ← draw host 64
    lift (check_error failure)
    let kdf = host.hkdf sha512_new seed [] (text "ML-DSA-keypair")
    let priv_size = mldsa_private_key_size level
    let priv = read_stream kdf 0 priv_size
    let pub_bytes = read_stream kdf priv_size (verifying_key_size (mldsa_signer level))
    pure (record { content = priv; public = record { content = pub_bytes } })

  -- The library draws from `rand.Reader` itself.
  unfoldable pub ed25519_generate_key : Action ℕ SigningKey
  ed25519_generate_key i = elim (host.ed25519_generate i) [
    | ok (public, priv) ↦
        (ok (record { content = priv; public = record { content = public } }), suc i)
    | err e ↦ (err e, suc i)
    | panic ↦ (panic, suc i)
  ]

  -- `GenerateKey`.
  unfoldable pub generate_signing_key : Signer → Action ℕ SigningKey
  generate_signing_key ed25519_signer = ed25519_generate_key
  generate_signing_key (mldsa_signer level) = mldsa_generate level

  -- `sk.Bytes()[:32]` of a shorter key is a panic.
  unfoldable pub mldsa_sign : SignatureAlgorithm → SigningKey → List ℕ → Outcome (List ℕ)
  mldsa_sign level sk message =
      if leb 32 (length sk.content)
      then ok (
          copy (replicate (signature_size (mldsa_signer level)) 0)
            (host.hmac_sha256 (take 32 sk.content) message))
      else panic

  abbrev pub ed25519_sign_message : SigningKey → List ℕ → Outcome (List ℕ)
  ed25519_sign_message sk message = host.ed25519_sign sk.content message

  -- `Sign`.
  unfoldable pub sign : Signer → SigningKey → List ℕ → Outcome (List ℕ)
  sign ed25519_signer sk message = ed25519_sign_message sk message
  sign (mldsa_signer level) sk message = mldsa_sign level sk message

  abbrev pub ed25519_verify_message : VerifyingKey → List ℕ → List ℕ → Outcome Bool
  ed25519_verify_message pk message signature = host.ed25519_verify pk.content message signature

  -- Neither the key nor the message is looked at.
  abbrev pub mldsa_verify : VerifyingKey → List ℕ → List ℕ → Outcome Bool
  mldsa_verify pk message signature = ok (leb 32 (length signature))

  -- `Verify`.
  unfoldable pub verify : Signer → VerifyingKey → List ℕ → List ℕ → Outcome Bool
  verify ed25519_signer pk message signature = ed25519_verify_message pk message signature
  verify (mldsa_signer level) pk message signature = mldsa_verify pk message signature
