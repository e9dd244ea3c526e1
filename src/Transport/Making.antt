-- ===== src/Transport/Making.antt =====
-- What `New` returns.
use qzmq.Common.{◌≡◌, some, ok, arith}
use qzmq.Options.{Options, backend_go, fill_rotation, validate_options}
use qzmq.Options.Laws.{IsQuantumSafe, IsFilled, validate_options_sound}
use qzmq.Transport.Types.{Transport}
use qzmq.Transport.Calls.{new_transport, start_transport, init_backend}

started :
    (o : Options) {t : Transport}
    → start_transport o ≡ ok t
    → (t.backend ≡ backend_go) × (t.opts ≡ o)
unfolding start_transport init_backend
started o h = ground arith

validated :
    (o : Options) {t : Transport}
    → new_transport o ≡ ok t
    → let p = record o { key_rotation = fill_rotation o.key_rotation } in
      (validate_options (some o) ≡ (ok tt, some p)) × (start_transport p ≡ ok t)
unfolding new_transport validate_options
validated o h = ground arith

-- A transport that `New` returns runs on the Go backend and has the given options with every rotation
-- limit set; in PQ-only mode they name neither the KEM X25519 nor Ed25519.
pub new_transport_sound :
    (o : Options) {t : Transport}
    → new_transport o ≡ ok t
    → (t.backend ≡ backend_go)
      × (t.opts ≡ record o { key_rotation = fill_rotation o.key_rotation })
      × IsFilled t.opts.key_rotation
      × IsQuantumSafe t.opts
new_transport_sound o {t} h =
    let (passed, made) = validated o h in
    let (safe, same, filled) = validate_options_sound o passed in
    let (backend, opts) = started _ made in (backend, opts, rw opts filled, rw opts safe)
