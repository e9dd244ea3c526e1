-- ===== src/Options/Presets.antt =====
-- qzmq.go: `DefaultOptions`, `ConservativeOptions`, `PerformanceOptions`, `validateOptions`.
use qzmq.Common.{
  ℕ, ◌*◌, ◌^◌, Bool, true, false, Option, none, some, Outcome, ok, err, Action, ◌==◌, if◌then◌else◌,
  nil_options, classical_kem, classical_signature,
}
use qzmq.Common.Int.{pos, is_zero}
use qzmq.Options.Types.{
  Options, Mode, KemAlgorithm, SignatureAlgorithm, KeyRotationPolicy, backend_auto, mode_hybrid,
  mode_pq_only, mode_classical, x25519, mlkem1024, hybrid_x25519_mlkem768, ed25519, mldsa2, mldsa3,
  aes256_gcm, chacha20_poly1305, sha256, sha384, blake3,
}

-- `time.Second` and `time.Minute`, in nanoseconds.
abbrev pub second : ℕ
second = 10 ^ 9

abbrev pub minute : ℕ
minute = 60 * second

unfoldable pub default_options : Options
default_options = record {
  backend = backend_auto;
  suite = record { kem = hybrid_x25519_mlkem768; sign = mldsa2; aead = aes256_gcm; hash = sha256 };
  mode = mode_hybrid;
  key_rotation = record { max_messages = 2 ^ 32; max_bytes = 2 ^ 40; max_age = pos (10 * minute) };
  anti_dos = true;
  zero_rtt = false;
  max_early_data = 16384;
  certificates = none;
  timeouts = record { handshake = pos (5 * second); heartbeat = pos (30 * second); linger = pos 0 };
}

unfoldable pub conservative_options : Options
unfolding default_options
conservative_options =
    let opts = default_options in
    let rotation = opts.key_rotation in
    record opts {
      suite = record { kem = mlkem1024; sign = mldsa3; aead = aes256_gcm; hash = sha384 };
      mode = mode_pq_only;
      zero_rtt = false;
      key_rotation = record rotation { max_messages = 2 ^ 20; max_age = pos (5 * minute) };
    }

unfoldable pub performance_options : Options
unfolding default_options
performance_options =
    let opts = default_options in
    record opts {
      suite = record { kem = x25519; sign = ed25519; aead = chacha20_poly1305; hash = blake3 };
      mode = mode_classical;
      zero_rtt = true;
      anti_dos = false;
    }

abbrev pub is_pq_only : Mode → Bool
is_pq_only mode_pq_only = true
is_pq_only _ = false

abbrev pub is_x25519 : KemAlgorithm → Bool
is_x25519 x25519 = true
is_x25519 _ = false

abbrev pub is_ed25519 : SignatureAlgorithm → Bool
is_ed25519 ed25519 = true
is_ed25519 _ = false

-- The limits that are not set get their defaults.
unfoldable pub fill_rotation : KeyRotationPolicy → KeyRotationPolicy
fill_rotation r = record {
  max_messages = if r.max_messages == 0 then 2 ^ 32 else r.max_messages;
  max_bytes = if r.max_bytes == 0 then 2 ^ 40 else r.max_bytes;
  max_age = if is_zero r.max_age then pos (10 * minute) else r.max_age;
}

-- The checks of PQ-only mode, KEM first.
unfoldable pub check_suite : Options → Outcome (Unit {0})
check_suite o =
    if is_pq_only o.mode
    then (if is_x25519 o.suite.kem
        then err classical_kem
        else if is_ed25519 o.suite.sign
        then err classical_signature
        else ok tt)
    else ok tt

-- The receiver is what the pointer `opts` points to; `none` is the nil pointer.
unfoldable pub validate_options : Action (Option Options) (Unit {0})
unfolding check_suite fill_rotation
validate_options none = (err nil_options, none)
validate_options (some o) = elim (check_suite o) [
  | ok _ ↦ (ok tt, some (record o { key_rotation = fill_rotation o.key_rotation }))
  | err e ↦ (err e, some o)
  | Outcome.panic ↦ (Outcome.panic, some o)
]
