-- ===== src/Prelude/Outcome.antt =====
-- The negative `int` results of src/include/openct/error.h, and results that carry one.
use mathlib.Core.Path.{◌≡◌, refl}
use mathlib.Core.Logic.{◌⊎◌, inl, inr}

pub data Error : Type 0 where
  generic timeout invalid_slot not_supported comm_error no_card locked nolock : Error
  invalid_arg no_memory buffer_too_small user_timeout user_abort pin_mismatch no_atr : Error
  incompatible_device device_disconnected invalid_atr : Error
  invalid_msg invalid_cmd missing_arg not_connected : Error
  already_claimed device_busy unknown_device : Error

-- A result of at least 0, or one of the codes.
pub data Outcome {ℓ} (A : Type ℓ) : Type ℓ where
  ok : A → Outcome A
  err : Error → Outcome A

pub Outcome-cases {ℓ} :
    {A : Type ℓ} (r : Outcome A) → ((a : A) × (r ≡ ok a)) ⊎ ((e : Error) × (r ≡ err e))
Outcome-cases (ok a) = inl (a, refl)
Outcome-cases (err e) = inr (e, refl)
