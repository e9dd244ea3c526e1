-- ===== src/Crypto/Sample.antt =====
-- A host with small computable primitives, for the runs of the tests.
use qzmq.Common.{
  ℕ, ◌+◌, ◌%◌, List, [], ◌∷◌, length, replicate, length-replicate, get_or, ok, err, none, true,
  arith, if◌then◌else◌, ◌==◌, external,
}
use qzmq.Crypto.Host.{Host, FillsBuffers}
use qzmq.Crypto.Advertised.{GivesPoints}
use qzmq.Crypto.Agreement.{IsSound}

-- Read `i` of crypto/rand gives the byte `i + 1` throughout. A point is its first byte, and X25519
-- adds; ML-KEM's secret is the sum of the key and the number of the draw. An AEAD prefixes the first
-- byte of its key.
abbrev pub point : ℕ → List ℕ
point n = n % 256 ∷ replicate 31 0

abbrev pub sample_host : Host
sample_host = record {
  rand = λ i n. (replicate n (i + 1), none);
  x25519 =
      λ k p. if length p == 32 then ok (point (get_or k 0 0 + get_or p 0 0)) else err (external 1);
  basepoint = point 0;
  ed25519_generate = λ i. ok (replicate 32 i, replicate 64 i);
  ed25519_sign = λ k m. ok (replicate 64 (length m % 256));
  ed25519_verify = λ k m s. ok true;
  hmac_sha256 = λ k m. replicate 32 (length m % 256);
  hkdf = λ h secret salt info i. (length secret + length info + i) % 256;
  aes_new_cipher = λ k. ok tt;
  new_gcm = λ k. ok tt;
  chacha_new = λ k. ok tt;
  open_sealed = λ a nonce enc aad. ok enc;
  seal = λ a nonce p aad. p;
  mlkem_generate = λ level i. ok (i, i);
  mlkem_encapsulate = λ public j. ok (public ∷ j ∷ [], replicate 32 ((public + j) % 256));
  mlkem_decapsulate = λ priv ct. ok (replicate 32 ((priv + get_or ct 1 0) % 256));
  mlkem_public_bytes = λ k. replicate 1184 (k % 256);
  mlkem_private_bytes = λ k. replicate 2400 (k % 256);
  mlkem_public_key_size = λ level. 1184;
  mlkem_private_key_size = λ level. 2400;
  mlkem_ciphertext_size = λ level. 1088;
  mlkem_shared_key_size = λ level. 32;
}

pub sample_host-FillsBuffers : FillsBuffers sample_host
sample_host-FillsBuffers i n = length-replicate n (i + 1)

pub sample_host-IsSound : IsSound sample_host
sample_host-IsSound = record {
  commutes = λ a b pa pb s h h' h''. ground arith;
  point_size = λ k p s h. ground arith;
  decapsulates = λ level i j public priv ct ss g e. ground arith;
}

pub sample_host-GivesPoints : GivesPoints sample_host
sample_host-GivesPoints k p s h = ground arith
