-- ===== src/Prelude/Results.antt =====
-- Results of code that throws: a value, or the exception that left the function.
use mathlib.Core.Option.{Option, none, some}

-- `out_of_range` is thrown by `std::string::at`, `invalid_base64` by `pos_of_char`.
pub data Error : Type 0 where
  out_of_range invalid_base64 : Error

pub data Result {ℓ} (A : Type ℓ) : Type ℓ where
  ok : A → Result A
  err : Error → Result A

abbrev pub bind_result {ℓ κ} : {A : Type ℓ} {B : Type κ} → Result A → (A → Result B) → Result B
bind_result (ok a) f = f a
bind_result (err e) f = err e

-- A step that may fault (a read out of bounds) or run out of fuel: `none`.
abbrev pub bind_option {ℓ κ} : {A : Type ℓ} {B : Type κ} → Option A → (A → Option B) → Option B
bind_option none f = none
bind_option (some a) f = f a
