-- ===== src/BackendSelection/Validate.antt =====
-- backend_selection.go: `ValidateBackend`, the capabilities, `SelectBackendForEnvironment` and
-- `ValidateBackendType`.
use qzmq.Common.{
  Bool, true, false, ◌||◌, text_eq, if◌then◌else◌, [], ◌∷◌, ◌++◌, Outcome, ok, err, requires_cgo,
  unknown_backend,
}
use qzmq.Common.Text.{Text, text}
use qzmq.BackendSelection.Detect.{
  BackendType, Environment, stub, pebbe, luxzmq, czmq, no_cgo, detect_backend,
}

pub record BackendCapabilities : Type 0 where
  pub supports_quantum : Bool
  pub supports_multicast : Bool
  pub supports_encryption : Bool
  pub needs_cgo : Bool
  pub requires_library : Text
  pub max_throughput : Text
  pub typical_latency : Text

-- The `switch` of `GetBackendCapabilities`; the letter μ has two bytes.
unfoldable pub capabilities_of : BackendType → BackendCapabilities
capabilities_of stub = record {
  supports_quantum = true;
  supports_multicast = true;
  supports_encryption = true;
  needs_cgo = false;
  requires_library = text "none";
  max_throughput = text "10K msg/sec";
  typical_latency = text "1ms";
}
capabilities_of pebbe = record {
  supports_quantum = true;
  supports_multicast = true;
  supports_encryption = true;
  needs_cgo = true;
  requires_library = text "libzmq";
  max_throughput = text "1M msg/sec";
  typical_latency = text "10" ++ 0xCE ∷ 0xBC ∷ text "s";
}
capabilities_of luxzmq = record {
  supports_quantum = true;
  supports_multicast = true;
  supports_encryption = true;
  needs_cgo = true;
  requires_library = text "luxzmq";
  max_throughput = text "5M msg/sec";
  typical_latency = text "1" ++ 0xCE ∷ 0xBC ∷ text "s";
}
capabilities_of czmq = record {
  supports_quantum = true;
  supports_multicast = true;
  supports_encryption = true;
  needs_cgo = true;
  requires_library = text "libczmq";
  max_throughput = text "10M msg/sec";
  typical_latency = text "500ns";
}
capabilities_of (BackendType.other name) = record {
  supports_quantum = false;
  supports_multicast = false;
  supports_encryption = false;
  needs_cgo = false;
  requires_library = [];
  max_throughput = [];
  typical_latency = [];
}

abbrev pub is_ok : Outcome (Unit {0}) → Bool
is_ok (ok _) = true
is_ok _ = false

module _ (getenv : Environment) where
  abbrev pub with_cgo : Outcome (Unit {0})
  with_cgo = if no_cgo getenv then err requires_cgo else ok tt

  -- The `switch` of `ValidateBackend`: nothing is asked for luxzmq.
  unfoldable pub validate_detected : BackendType → Outcome (Unit {0})
  validate_detected stub = ok tt
  validate_detected pebbe = with_cgo
  validate_detected luxzmq = ok tt
  validate_detected czmq = with_cgo
  validate_detected (BackendType.other name) = err unknown_backend

  unfoldable pub validate_backend : Outcome (Unit {0})
  validate_backend = validate_detected (detect_backend getenv)

  unfoldable pub get_backend_capabilities : BackendCapabilities
  get_backend_capabilities = capabilities_of (detect_backend getenv)

  unfoldable pub validate_backend_type : BackendType → Outcome (Unit {0})
  validate_backend_type stub = ok tt
  validate_backend_type pebbe = with_cgo
  validate_backend_type luxzmq = with_cgo
  validate_backend_type czmq = with_cgo
  validate_backend_type (BackendType.other name) = err unknown_backend

  -- What follows the production block.
  unfoldable pub select_outside_production : BackendType
  select_outside_production =
      let env = getenv (text "QZMQ_ENV") in
      if text_eq env (text "development") || text_eq env (text "test")
      then stub
      else detect_backend getenv

  unfoldable pub select_backend_for_environment : BackendType
  select_backend_for_environment =
      if text_eq (getenv (text "QZMQ_ENV")) (text "production")
      then if is_ok (validate_backend_type luxzmq)
        then luxzmq
        else if is_ok (validate_backend_type czmq)
        then czmq
        else if is_ok (validate_backend_type pebbe)
        then pebbe
        else select_outside_production
      else select_outside_production
