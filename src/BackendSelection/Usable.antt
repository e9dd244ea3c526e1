-- ===== src/BackendSelection/Usable.antt =====
-- The selected backend.
use qzmq.Common.{◌≡◌, none, ok, arith}
use qzmq.BackendSelection.Detect.{Environment, explicit_backend, tagged_backend, detect_backend}
use qzmq.BackendSelection.Validate.{
  validate_backend_type, select_outside_production, select_backend_for_environment,
}

-- Where neither QZMQ_BACKEND nor a build tag asks for a backend, the one that
-- `SelectBackendForEnvironment` chooses passes `ValidateBackendType`, with CGO and without, in every
-- environment.
pub select_backend_for_environment_usable :
    (getenv : Environment)
    → explicit_backend getenv ≡ none
    → tagged_backend getenv ≡ none
    → validate_backend_type getenv (select_backend_for_environment getenv) ≡ ok tt
unfolding validate_backend_type select_outside_production select_backend_for_environment
    detect_backend
select_backend_for_environment_usable getenv e t = ground arith
