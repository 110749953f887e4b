-- ===== src/Prelude/Slices.antt =====
-- Slices and elements of a list that is an appended one.
use Prim.Native.Nat.{ℕ, zero, suc, ◌+◌, ◌≤◌, ◌<◌}
use mathlib.Core.Path.{◌≡◌, refl, ap, sym, ◌∙◌}
use mathlib.Core.List.{List, [], ◌∷◌, ◌++◌}
use native.Mathlib.Omega.{arith}
use mod_audio_stream.Prelude.Lists.{length, get_elem?, get_or, take, drop}

module _ {ℓ} {A : Type ℓ} (s : List A) (d : ℕ) where
  pub take-append :
      (pre : List A) (i : ℕ) → i ≡ length pre + d → take i (pre ++ s) ≡ pre ++ take d s
  take-append [] i e = let i=d : i ≡ d = omega arith in rw i=d
  take-append (x ∷ pre) zero e = absurd (omega arith)
  take-append (x ∷ pre) (suc i) e = ap (◌∷◌ x) (take-append pre i (omega arith))

  pub drop-append : (pre : List A) (i : ℕ) → i ≡ length pre + d → drop i (pre ++ s) ≡ drop d s
  drop-append [] i e = let i=d : i ≡ d = omega arith in rw i=d
  drop-append (x ∷ pre) zero e = absurd (omega arith)
  drop-append (x ∷ pre) (suc i) e = drop-append pre i (omega arith)

  pub get_elem?-append :
      (pre : List A) (i : ℕ) → i ≡ length pre + d → get_elem? (pre ++ s) i ≡ get_elem? s d
  get_elem?-append [] i e = let i=d : i ≡ d = omega arith in rw i=d
  get_elem?-append (x ∷ pre) zero e = absurd (omega arith)
  get_elem?-append (x ∷ pre) (suc i) e = get_elem?-append pre i (omega arith)

module _ {ℓ} {A : Type ℓ} where
  -- A slice that lies in the first part does not see the second.
  pub take-append_left : (s t : List A) (n : ℕ) → n ≤ length s → take n (s ++ t) ≡ take n s
  take-append_left s t zero h = refl
  take-append_left [] t (suc n) h = absurd (omega arith)
  take-append_left (x ∷ s) t (suc n) h = ap (◌∷◌ x) (take-append_left s t n (omega arith))

  pub drop-append_left : (s t : List A) (n : ℕ) → n ≤ length s → drop n (s ++ t) ≡ drop n s ++ t
  drop-append_left s t zero h = refl
  drop-append_left [] t (suc n) h = absurd (omega arith)
  drop-append_left (x ∷ s) t (suc n) h = drop-append_left s t n (omega arith)

  pub get_or-append_left :
      (s t : List A) (i : ℕ) (z : A) → i < length s → get_or (s ++ t) i z ≡ get_or s i z
  get_or-append_left [] t i z h = absurd (omega arith)
  get_or-append_left (x ∷ s) t zero z h = refl
  get_or-append_left (x ∷ s) t (suc i) z h = get_or-append_left s t i z (omega arith)

  pub take_all : (s : List A) (n : ℕ) → length s ≤ n → take n s ≡ s
  take_all [] zero h = refl
  take_all [] (suc n) h = refl
  take_all (x ∷ s) zero h = absurd (omega arith)
  take_all (x ∷ s) (suc n) h = ap (◌∷◌ x) (take_all s n (omega arith))

  pub drop_all : (s : List A) (n : ℕ) → length s ≤ n → drop n s ≡ []
  drop_all [] zero h = refl
  drop_all [] (suc n) h = refl
  drop_all (x ∷ s) zero h = absurd (omega arith)
  drop_all (x ∷ s) (suc n) h = drop_all s n (omega arith)

take_nil {ℓ} : {A : Type ℓ} (n : ℕ) → take {A = A} n [] ≡ []
take_nil zero = refl
take_nil (suc n) = refl

-- Two slices, one behind the other.
pub take-drop {ℓ} :
    {A : Type ℓ} (m n : ℕ) (s : List A) → take m s ++ take n (drop m s) ≡ take (m + n) s
take-drop zero n s = let e : 0 + n ≡ n = omega arith in rw e
take-drop (suc m) n [] = take_nil n ∙ sym (take_nil (suc m + n))
take-drop (suc m) n (x ∷ s) =
    let e : suc m + n ≡ suc (m + n) = omega arith in rw e (ap (◌∷◌ x) (take-drop m n s))

drop_nil {ℓ} : {A : Type ℓ} (n : ℕ) → drop {A = A} n [] ≡ []
drop_nil zero = refl
drop_nil (suc n) = refl

pub drop-drop {ℓ} : {A : Type ℓ} (m n : ℕ) (s : List A) → drop n (drop m s) ≡ drop (m + n) s
drop-drop zero n s = let e : 0 + n ≡ n = omega arith in rw e refl
drop-drop (suc m) n [] = drop_nil n ∙ sym (drop_nil (suc m + n))
drop-drop (suc m) n (x ∷ s) =
    let e : suc m + n ≡ suc (m + n) = omega arith in rw e (drop-drop m n s)
