-- ===== src/Crypto/Sizes.antt =====
-- crypto.go and mlkem_integration.go: the sizes that a KEM reports.
use qzmq.Common.{ℕ, ◌+◌, Outcome, ok, err, panic}
use qzmq.Crypto.Host.{Host, level768, level1024}
use qzmq.Crypto.Keys.{
  Kem, x25519_kem, mlkem768_type, mlkem1024_type, real_mlkem768, real_mlkem1024, hybrid_mlkem,
  nil_kem, hybrid_kem,
}

abbrev pub add_sizes : Outcome ℕ → Outcome ℕ → Outcome ℕ
add_sizes (ok m) (ok n) = ok (m + n)
add_sizes (ok m) (err e) = err e
add_sizes (ok m) panic = panic
add_sizes (err e) n = err e
add_sizes panic n = panic

module _ (host : Host) where
  -- `PublicKeySize`, `PrivateKeySize`, `CiphertextSize`, `SharedSecretSize`.
  unfoldable pub public_key_size : Kem → Outcome ℕ
  public_key_size x25519_kem = ok 32
  public_key_size mlkem768_type = ok 1184
  public_key_size mlkem1024_type = ok 1568
  public_key_size real_mlkem768 = ok (host.mlkem_public_key_size level768)
  public_key_size real_mlkem1024 = ok (host.mlkem_public_key_size level1024)
  public_key_size hybrid_mlkem = ok (32 + host.mlkem_public_key_size level768)
  public_key_size nil_kem = panic
  public_key_size (hybrid_kem c p) = add_sizes (public_key_size c) (public_key_size p)

  unfoldable pub private_key_size : Kem → Outcome ℕ
  private_key_size x25519_kem = ok 32
  private_key_size mlkem768_type = ok 2400
  private_key_size mlkem1024_type = ok 3168
  private_key_size real_mlkem768 = ok (host.mlkem_private_key_size level768)
  private_key_size real_mlkem1024 = ok (host.mlkem_private_key_size level1024)
  private_key_size hybrid_mlkem = ok (32 + host.mlkem_private_key_size level768)
  private_key_size nil_kem = panic
  private_key_size (hybrid_kem c p) = add_sizes (private_key_size c) (private_key_size p)

  unfoldable pub ciphertext_size : Kem → Outcome ℕ
  ciphertext_size x25519_kem = ok 32
  ciphertext_size mlkem768_type = ok 1088
  ciphertext_size mlkem1024_type = ok 1568
  ciphertext_size real_mlkem768 = ok (host.mlkem_ciphertext_size level768)
  ciphertext_size real_mlkem1024 = ok (host.mlkem_ciphertext_size level1024)
  ciphertext_size hybrid_mlkem = ok (32 + host.mlkem_ciphertext_size level768)
  ciphertext_size nil_kem = panic
  ciphertext_size (hybrid_kem c p) = add_sizes (ciphertext_size c) (ciphertext_size p)

  unfoldable pub shared_secret_size : Kem → Outcome ℕ
  shared_secret_size real_mlkem768 = ok (host.mlkem_shared_key_size level768)
  shared_secret_size real_mlkem1024 = ok (host.mlkem_shared_key_size level1024)
  shared_secret_size nil_kem = panic
  shared_secret_size x25519_kem = ok 32
  shared_secret_size mlkem768_type = ok 32
  shared_secret_size mlkem1024_type = ok 32
  shared_secret_size hybrid_mlkem = ok 32
  shared_secret_size (hybrid_kem c p) = ok 32
