-- ===== src/Options/Tests.antt =====
-- Runs of the presets, and the theorems at concrete options.
use qzmq.Common.{◌≡◌, refl, some, ok, err, inl, classical_kem}
use qzmq.Options.Types.{Options, mode_pq_only}
use qzmq.Options.Presets.{
  default_options, conservative_options, performance_options, fill_rotation, validate_options,
}
use qzmq.Options.Laws.{
  IsFilled, IsQuantumSafe, validate_options_sound, validate_options_refuses, validate_options_idem,
}

default_passes : validate_options (some default_options) ≡ (ok tt, some default_options)
unfolding validate_options default_options
default_passes = refl

conservative_passes :
    validate_options (some conservative_options) ≡ (ok tt, some conservative_options)
unfolding validate_options conservative_options
conservative_passes = refl

performance_passes : validate_options (some performance_options) ≡ (ok tt, some performance_options)
unfolding validate_options performance_options
performance_passes = refl

-- Performance options put into PQ-only mode.
abbrev mixed_up : Options
mixed_up = record performance_options { mode = mode_pq_only }

validate_options_sound_example :
    IsQuantumSafe default_options
    × (some default_options
        ≡ some
            (record default_options { key_rotation = fill_rotation default_options.key_rotation }))
    × IsFilled (fill_rotation default_options.key_rotation)
validate_options_sound_example = validate_options_sound default_options default_passes

validate_options_refuses_example :
    validate_options (some mixed_up) ≡ (err classical_kem, some mixed_up)
unfolding performance_options
validate_options_refuses_example = validate_options_refuses mixed_up refl (inl refl)

validate_options_idem_example :
    validate_options (some default_options) ≡ (ok tt, some default_options)
validate_options_idem_example = validate_options_idem default_options default_options default_passes
