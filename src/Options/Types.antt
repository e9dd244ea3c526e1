-- ===== src/Options/Types.antt =====
-- qzmq.go: the enums and the structs of the options.
use qzmq.Common.{ℕ, ◌+◌, Bool, ◌&&◌, List, Option, ◌==◌}
use qzmq.Common.Int.{ℤ}

pub data Backend : Type 0 where
  backend_auto backend_go : Backend
  other : ℕ → Backend

pub data Mode : Type 0 where
  mode_hybrid mode_pq_only mode_classical : Mode
  other : ℕ → Mode

pub data SocketType : Type 0 where
  req rep dealer router pub_socket sub xpub xsub push pull pair stream : SocketType
  other : ℕ → SocketType

pub data KemAlgorithm : Type 0 where
  x25519 mlkem768 mlkem1024 hybrid_x25519_mlkem768 hybrid_x25519_mlkem1024 : KemAlgorithm
  other : ℕ → KemAlgorithm

pub data SignatureAlgorithm : Type 0 where
  ed25519 mldsa2 mldsa3 : SignatureAlgorithm
  other : ℕ → SignatureAlgorithm

pub data AeadAlgorithm : Type 0 where
  aes256_gcm chacha20_poly1305 : AeadAlgorithm
  other : ℕ → AeadAlgorithm

pub data HashAlgorithm : Type 0 where
  sha256 sha384 sha512 blake3 : HashAlgorithm
  other : ℕ → HashAlgorithm

pub data VerifyMode : Type 0 where
  verify_none verify_peer verify_fail_if_no_peer_cert : VerifyMode
  other : ℕ → VerifyMode

pub record Suite : Type 0 where
  pub kem : KemAlgorithm
  pub sign : SignatureAlgorithm
  pub aead : AeadAlgorithm
  pub hash : HashAlgorithm

-- `MaxAge` is a `time.Duration`, in nanoseconds; the others are uint64.
pub record KeyRotationPolicy : Type 0 where
  pub max_messages : ℕ
  pub max_bytes : ℕ
  pub max_age : ℤ

pub record CertificateConfig : Type 0 where
  pub ca_cert : List ℕ
  pub client_cert : List ℕ
  pub client_key : List ℕ
  pub server_cert : List ℕ
  pub server_key : List ℕ
  pub verify_mode : VerifyMode

pub record TimeoutConfig : Type 0 where
  pub handshake : ℤ
  pub heartbeat : ℤ
  pub linger : ℤ

pub record Options : Type 0 where
  pub backend : Backend
  pub suite : Suite
  pub mode : Mode
  pub key_rotation : KeyRotationPolicy
  pub anti_dos : Bool
  pub zero_rtt : Bool
  pub max_early_data : ℕ
  pub certificates : Option CertificateConfig
  pub timeouts : TimeoutConfig

abbrev pub kem_code : KemAlgorithm → ℕ
kem_code x25519 = 0
kem_code mlkem768 = 1
kem_code mlkem1024 = 2
kem_code hybrid_x25519_mlkem768 = 3
kem_code hybrid_x25519_mlkem1024 = 4
kem_code (KemAlgorithm.other n) = 5 + n

abbrev pub sign_code : SignatureAlgorithm → ℕ
sign_code ed25519 = 0
sign_code mldsa2 = 1
sign_code mldsa3 = 2
sign_code (SignatureAlgorithm.other n) = 3 + n

abbrev pub aead_code : AeadAlgorithm → ℕ
aead_code aes256_gcm = 0
aead_code chacha20_poly1305 = 1
aead_code (AeadAlgorithm.other n) = 2 + n

abbrev pub hash_code : HashAlgorithm → ℕ
hash_code sha256 = 0
hash_code sha384 = 1
hash_code sha512 = 2
hash_code blake3 = 3
hash_code (HashAlgorithm.other n) = 4 + n

-- Go's `==` on two values of the struct `Suite`.
abbrev pub suite_eq : Suite → Suite → Bool
suite_eq s t =
    kem_code s.kem == kem_code t.kem
    && sign_code s.sign == sign_code t.sign
    && aead_code s.aead == aead_code t.aead
    && hash_code s.hash == hash_code t.hash

-- The zero value of the struct: `iota` starts each enum at its first name.
abbrev pub zero_suite : Suite
zero_suite = record { kem = x25519; sign = ed25519; aead = aes256_gcm; hash = sha256 }
