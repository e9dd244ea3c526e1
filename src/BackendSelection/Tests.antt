-- ===== src/BackendSelection/Tests.antt =====
-- Runs of the selection, and the theorems in a concrete environment.
use qzmq.Common.{
  ◌≡◌, ◌↔◌, ◌⊎◌, refl, true, false, ok, if◌then◌else◌, text_eq, [], err, requires_cgo,
}
use qzmq.Common.Text.{text}
use qzmq.BackendSelection.Detect.{
  Environment, luxzmq, czmq, explicit_backend, tagged_backend, named_backend, no_cgo,
  detect_backend,
}
use qzmq.BackendSelection.Validate.{
  capabilities_of, validate_backend, validate_detected, validate_backend_type,
  select_backend_for_environment,
}
use qzmq.BackendSelection.Agreement.{is_named, validate_backend_type_iff}
use qzmq.BackendSelection.Usable.{select_backend_for_environment_usable}

-- Production without CGO, and a shell that asks for luxzmq without CGO.
abbrev bare_production : Environment
bare_production name =
    if text_eq name (text "QZMQ_ENV")
    then text "production"
    else if text_eq name (text "CGO_ENABLED")
    then text "0"
    else []

abbrev wants_luxzmq : Environment
wants_luxzmq name =
    if text_eq name (text "QZMQ_BACKEND")
    then text "LuxZMQ"
    else if text_eq name (text "CGO_ENABLED")
    then text "0"
    else []

luxzmq_passes : validate_backend wants_luxzmq ≡ ok tt
unfolding validate_backend validate_detected detect_backend explicit_backend named_backend
luxzmq_passes = refl

luxzmq_fails : validate_backend_type wants_luxzmq luxzmq ≡ err requires_cgo
unfolding validate_backend_type no_cgo
luxzmq_fails = refl

validate_backend_type_iff_example : (validate_backend_type bare_production czmq ≡ ok tt) ↔ (
    (is_named czmq ≡ true)
    × (((capabilities_of czmq).needs_cgo ≡ false) ⊎ (no_cgo bare_production ≡ false)))
validate_backend_type_iff_example = validate_backend_type_iff bare_production czmq

select_backend_for_environment_usable_example :
    validate_backend_type bare_production (select_backend_for_environment bare_production) ≡ ok tt
unfolding explicit_backend tagged_backend
select_backend_for_environment_usable_example =
    select_backend_for_environment_usable bare_production refl refl
