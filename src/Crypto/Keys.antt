-- ===== src/Crypto/Keys.antt =====
-- crypto.go and mlkem_integration.go: the key types behind the interfaces, and the KEM types.
use qzmq.Common.{ℕ, List, ◌++◌, Outcome, ok, panic, err}
use qzmq.Crypto.Host.{Host}

-- `PublicKey`: `*publicKey`, `*mlkemPublicKey`, `*hybridPublicKey`, or the nil interface.
pub data PublicKey : Type 0 where
  raw_public : List ℕ → PublicKey
  mlkem_public : ℕ → PublicKey
  hybrid_public : PublicKey → PublicKey → PublicKey
  nil_public : PublicKey

-- `PrivateKey`: `*privateKey`, `*mlkemPrivateKey`, `*hybridPrivateKey`, each with its `public`.
pub data PrivateKey : Type 0 where
  raw_private : List ℕ → PublicKey → PrivateKey
  mlkem_private : ℕ → PublicKey → PrivateKey
  hybrid_private : PrivateKey → PrivateKey → PublicKey → PrivateKey
  nil_private : PrivateKey

-- `KEM`. `hybrid_kem` is `HybridKEM` with its two fields, `hybrid_mlkem` is `HybridMLKEM`, whose
-- fields have fixed types; a method call on `nil_kem`, the nil interface, is a panic.
pub data Kem : Type 0 where
  x25519_kem mlkem768_type mlkem1024_type real_mlkem768 real_mlkem1024 hybrid_mlkem nil_kem : Kem
  hybrid_kem : Kem → Kem → Kem

-- `append(a.Bytes(), b.Bytes()...)`.
abbrev pub join_bytes : Outcome (List ℕ) → Outcome (List ℕ) → Outcome (List ℕ)
join_bytes (ok a) (ok b) = ok (a ++ b)
join_bytes (ok a) (err e) = err e
join_bytes (ok a) panic = panic
join_bytes (err e) b = err e
join_bytes panic b = panic

-- `PrivateKey.Public`.
abbrev pub public_of : PrivateKey → Outcome PublicKey
public_of (raw_private bs pk) = ok pk
public_of (mlkem_private k pk) = ok pk
public_of (hybrid_private c p pk) = ok pk
public_of nil_private = panic

module _ (host : Host) where
  -- `PublicKey.Bytes`.
  unfoldable pub public_bytes : PublicKey → Outcome (List ℕ)
  public_bytes (raw_public bs) = ok bs
  public_bytes (mlkem_public k) = ok (host.mlkem_public_bytes k)
  public_bytes (hybrid_public c p) = join_bytes (public_bytes c) (public_bytes p)
  public_bytes nil_public = panic

  -- `PrivateKey.Bytes`.
  unfoldable pub private_bytes : PrivateKey → Outcome (List ℕ)
  private_bytes (raw_private bs pk) = ok bs
  private_bytes (mlkem_private k pk) = ok (host.mlkem_private_bytes k)
  private_bytes (hybrid_private c p pk) = join_bytes (private_bytes c) (private_bytes p)
  private_bytes nil_private = panic
