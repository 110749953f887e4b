-- ===== src/Prelude/Cases.antt =====
-- Facts about a computed value, proved in each case with what the case says.
use mathlib.Core.Path.{◌≡◌, refl}
use mathlib.Core.Bool.{Bool, true, false}
use mathlib.Core.Option.{Option, none, some}
use mod_audio_stream.Prelude.Tests.{if◌then◌else◌}
use mod_audio_stream.Prelude.Results.{bind_option}

-- The value, if there is one, has the property.
abbrev pub IfAny {ℓ κ} : {A : Type ℓ} → (A → Type κ) → Option A → Type κ
IfAny P none = Unit
IfAny P (some a) = P a

-- There is a value.
abbrev pub Returns {ℓ} : {A : Type ℓ} → Option A → Type 0
Returns none = ⊥
Returns (some a) = Unit

pub Returns-some {ℓ} : {A : Type ℓ} (m : Option A) → Returns m → (a : A) × (m ≡ some a)
Returns-some none h = absurd h
Returns-some (some a) h = (a, refl)

pub if_both {ℓ κ} :
    {A : Type ℓ} (P : A → Type κ) (b : Bool) (x y : A)
    → (b ≡ true → P x)
    → (b ≡ false → P y)
    → P (if b then x else y)
if_both P true x y p q = p refl
if_both P false x y p q = q refl

pub option_both {ℓ κ λ'} :
    {A : Type ℓ} {B : Type κ} (P : B → Type λ') (o : Option A) (x : B) (f : A → B)
    → (o ≡ none → P x)
    → ((a : A) → o ≡ some a → P (f a))
    → P (elim o [ none ↦ x | some a ↦ f a ])
option_both P none x f p q = p refl
option_both P (some a) x f p q = q a refl

pub bind-IfAny {ℓ κ λ'} :
    {A : Type ℓ} {B : Type κ} (P : B → Type λ') (m : Option A) (f : A → Option B)
    → ((a : A) → m ≡ some a → IfAny P (f a))
    → IfAny P (bind_option m f)
bind-IfAny P none f h = tt
bind-IfAny P (some a) f h = h a refl
