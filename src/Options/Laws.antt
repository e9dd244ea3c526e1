-- ===== src/Options/Laws.antt =====
-- `validateOptions` against what it promises, and the presets.
use qzmq.Common.{
  sym, ap, ◌∙◌, ◌≡◌, ◌≢◌, if◌then◌else◌, ◌⊎◌, Option, some, ok, err, arith, classical_kem,
  classical_signature, false,
}
use mathlib.Core.Path.{subst}
use qzmq.Common.Int.{is_zero}
use qzmq.Options.Types.{Options, mode_pq_only, x25519, ed25519, KeyRotationPolicy}
use qzmq.Options.Presets.{fill_rotation, check_suite, validate_options, is_x25519}

-- No limit of the policy is zero.
pub record IsFilled (r : KeyRotationPolicy) : Type 0 where
  pub messages_set : r.max_messages ≢ 0
  pub bytes_set : r.max_bytes ≢ 0
  pub age_set : is_zero r.max_age ≡ false

-- PQ-only mode comes with neither X25519 nor Ed25519.
abbrev pub IsQuantumSafe : Options → Type 0
IsQuantumSafe o = (o.mode ≢ mode_pq_only) ⊎ ((o.suite.kem ≢ x25519) × (o.suite.sign ≢ ed25519))

fill_rotation-IsFilled : (r : KeyRotationPolicy) → IsFilled (fill_rotation r)
unfolding fill_rotation
fill_rotation-IsFilled r = ground arith

check_suite-IsQuantumSafe : (o : Options) → check_suite o ≡ ok tt → IsQuantumSafe o
unfolding check_suite
check_suite-IsQuantumSafe o h = ground arith

-- A validation that succeeds leaves every limit set and the rest of the options as they were, and
-- in PQ-only mode they name neither the KEM X25519 nor Ed25519.
pub validate_options_sound :
    (o : Options) {s : Option Options}
    → validate_options (some o) ≡ (ok tt, s)
    → IsQuantumSafe o
      × (s ≡ some (record o { key_rotation = fill_rotation o.key_rotation }))
      × IsFilled (fill_rotation o.key_rotation)
unfolding validate_options
validate_options_sound o h =
    ground (arith, check_suite-IsQuantumSafe o, fill_rotation-IsFilled o.key_rotation)

-- In PQ-only mode a classical algorithm is refused, the KEM first, and the options stay as they
-- were.
pub validate_options_refuses :
    (o : Options)
    → o.mode ≡ mode_pq_only
    → (o.suite.kem ≡ x25519) ⊎ (o.suite.sign ≡ ed25519)
    → validate_options (some o)
      ≡ (err (if is_x25519 o.suite.kem then classical_kem else classical_signature), some o)
unfolding validate_options check_suite
validate_options_refuses o m c = ground arith

-- Options without a classical algorithm in PQ-only mode are accepted, and their rotation limits are
-- filled in.
validate_options_accepts :
    (o : Options)
    → IsQuantumSafe o
    → validate_options (some o)
      ≡ (ok tt, some (record o { key_rotation = fill_rotation o.key_rotation }))
unfolding validate_options check_suite
validate_options_accepts o h = ground arith

fill_rotation_self : (r : KeyRotationPolicy) → IsFilled r → fill_rotation r ≡ r
unfolding fill_rotation
fill_rotation_self r h = ground arith

-- Options that a validation has passed and filled in pass again, unchanged.
pub validate_options_idem :
    (o p : Options)
    → validate_options (some o) ≡ (ok tt, some p)
    → validate_options (some p) ≡ (ok tt, some p)
validate_options_idem o p h =
    let (safe, e, filled) = validate_options_sound o h in
    let same : p ≡ record o { key_rotation = fill_rotation o.key_rotation } = cc in
    subst (λ q. validate_options (some q) ≡ (ok tt, some q)) (sym same)
      (validate_options_accepts (record o { key_rotation = fill_rotation o.key_rotation }) safe
        ∙ ap (λ r. (ok tt, some (record o { key_rotation = r })))
            (fill_rotation_self (fill_rotation o.key_rotation) filled))
