-- ===== src/Prelude/Results.antt =====
-- Fallible results: Go's `(value, error)` pairs where the value is read only without an error.
use mathlib.Core.Path.{◌≡◌, refl}
use mathlib.Core.Logic.{◌⊎◌, inl, inr}

-- The error values that the modelled code returns or tests for.
pub data Error : Type 0 where
  -- internal/wire
  err_record err_nul_command_text err_encoded_size_limit err_command_text : Error
  -- io
  eof unexpected_eof : Error
  -- tmux/errors.go
  err_protocol err_output_limit err_input_limit err_resource_limit err_closed : Error
  err_events_lost err_concurrent_read err_invalid_handle err_not_found : Error
  err_server_changed err_link_changed err_client_changed : Error
  err_unsupported err_inconsistent : Error
  err_no_server err_already_exists err_ambiguous_target err_permission : Error
  err_control_command_failed err_transport_unsupported err_invalid : Error
  -- context
  canceled : Error

-- A value with a nil error, or the error that stands in its place.
pub data Result {κ} (X : Type κ) : Type κ where
  err : Error → Result X
  ok : X → Result X

-- `if err != nil { return ..., err }` between two calls.
infixl 5 ◌>>=◌
abbrev pub ◌>>=◌ {κ μ} : {X : Type κ} {Y : Type μ} → Result X → (X → Result Y) → Result Y
err code >>= next = err code
ok value >>= next = next value

pub Result-cases {ℓ} :
    {A : Type ℓ} (r : Result A) → ((a : A) × (r ≡ ok a)) ⊎ ((e : Error) × (r ≡ err e))
Result-cases (ok a) = inl (a, refl)
Result-cases (err e) = inr (e, refl)
