-- ===== src/Common/Outcomes.antt =====
-- How a Go call ends: with a value, with an `error`, or in a panic.
use Prim.Native.Nat.{ℕ}
use mathlib.Core.Path.{◌≡◌, refl}
use mathlib.Core.Logic.{◌⊎◌, inl, inr}
use mathlib.Core.List.{List}

-- One constructor for each error text of the source; `external` is an error value that a library
-- returned.
pub data Error : Type 0 where
  invalid_state_client_hello invalid_state_server_hello : Error
  invalid_state_client_key invalid_state_finished : Error
  suite_mismatch invalid_server_signature finished_decrypt finished_mac : Error
  server_hello_too_short frame_too_short invalid_frame_length invalid_aad_length : Error
  unsupported_signature unsupported_kem unsupported_aead invalid_hybrid_public_key : Error
  invalid_public_key_type invalid_private_key_type ciphertext_too_short : Error
  nil_options classical_kem classical_signature transport_closed : Error
  unsupported_backend unsupported_socket_type failed_to_create_socket : Error
  not_connected subscribe_only_sub unsubscribe_only_sub : Error
  unknown_option unsupported_option : List ℕ → Error
  requires_cgo unknown_backend : Error
  invalid_order_message : Error
  external : ℕ → Error
  wrapped : Error → Error

pub data Outcome {ℓ} (A : Type ℓ) : Type ℓ where
  ok : A → Outcome A
  err : Error → Outcome A
  panic : Outcome A

pub Outcome-cases {ℓ} :
    {A : Type ℓ} (r : Outcome A)
    → ((a : A) × (r ≡ ok a)) ⊎ (((e : Error) × (r ≡ err e)) ⊎ (r ≡ panic))
Outcome-cases (ok a) = inl (a, refl)
Outcome-cases (err e) = inr (inl (e, refl))
Outcome-cases panic = inr (inr refl)
