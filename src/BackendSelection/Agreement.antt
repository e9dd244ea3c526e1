-- ===== src/BackendSelection/Agreement.antt =====
-- The two validations against each other and against the capabilities.
use qzmq.Common.{◌≡◌, Bool, some, ◌↔◌, ◌⊎◌, true, false, ok, arith}
use qzmq.BackendSelection.Detect.{BackendType, Environment, luxzmq, no_cgo, explicit_backend}
use qzmq.BackendSelection.Validate.{capabilities_of, validate_backend_type}

-- QZMQ_BACKEND asks for luxzmq, and CGO is switched off.
abbrev pub WantsLuxzmqWithoutCgo : Environment → Type 0
WantsLuxzmqWithoutCgo getenv = (explicit_backend getenv ≡ some luxzmq) × (no_cgo getenv ≡ true)

-- The value is one of the source's four names.
abbrev pub is_named : BackendType → Bool
is_named (BackendType.other name) = false
is_named _ = true

-- A backend passes `ValidateBackendType` exactly if it is one of the four that have a name and CGO is
-- not switched off where `GetBackendCapabilities` says of it that it needs CGO. So luxzmq is refused
-- without CGO.
pub validate_backend_type_iff :
    (getenv : Environment) (b : BackendType)
    → (validate_backend_type getenv b ≡ ok tt)
      ↔ ((is_named b ≡ true) × (((capabilities_of b).needs_cgo ≡ false) ⊎ (no_cgo getenv ≡ false)))
unfolding validate_backend_type capabilities_of
validate_backend_type_iff getenv b = (λ h. ground arith, λ h. ground arith)
