-- ===== src/Prelude/Bytes.antt =====
-- Bytes, machine words, texts as byte lists, and facts checked on every byte.
use Prim.Native.Nat.{ℕ, zero, suc, ◌<◌, ◌%◌, ◌^◌, bit_and}
use Prim.Native.Char.{code}
use Prim.Native.String.{String}
use mathlib.Core.Path.{◌≡◌, refl}
use mathlib.Core.Bool.{Bool, true, ◌&&◌}
use mathlib.Core.List.{List, [], ◌∷◌, ◌++◌}
use mod_audio_stream.Prelude.Tests.{ltb, leb, ◌==◌, if◌then◌else◌}
use native.Mathlib.Omega.{arith}

abbrev pub u8 : ℕ → ℕ
u8 n = n % 2 ^ 8

abbrev pub u32 : ℕ → ℕ
u32 n = n % 2 ^ 32

abbrev pub u64 : ℕ → ℕ
u64 n = n % 2 ^ 64

-- The bytes of an ASCII text.
abbrev pub codes : String → List ℕ
codes String.[] = []
codes (String.◌∷◌ c s) = code c ∷ codes s

abbrev pub All {ℓ κ} : {A : Type ℓ} → (A → Type κ) → List A → Type κ
All P [] = Unit
All P (x ∷ xs) = P x × All P xs

pub All-append {ℓ κ} :
    {A : Type ℓ} (P : A → Type κ) (xs ys : List A) → All P xs → All P ys → All P (xs ++ ys)
All-append P [] ys hx hy = hy
All-append P (x ∷ xs) ys hx hy = (hx.0, All-append P xs ys hx.1 hy)

abbrev pub AreBytes : List ℕ → Type 0
AreBytes = All (λ b. b < 256)

-- Over a small range, every value is checked by evaluation.
unfoldable pub holds_below : ℕ → (ℕ → Bool) → Bool
holds_below zero test = true
holds_below (suc bound) test = holds_below bound test && test bound

pub holds_at :
    (bound : ℕ) (test : ℕ → Bool) (i : ℕ)
    → holds_below bound test ≡ true
    → i < bound
    → test i ≡ true
unfolding holds_below
holds_at (suc bound) test i table inside = ground (arith, holds_at bound test i)
holds_at zero test i table inside = absurd (omega arith)

abbrev high_bit_test : ℕ → Bool
high_bit_test b = if bit_and b 0x80 == 0 then ltb b 128 else leb 128 b

high_bit_table : holds_below 256 high_bit_test ≡ true
unfolding holds_below
high_bit_table = refl

-- Bit 7 of a byte is clear exactly below 128.
pub high_bit : (b : ℕ) → b < 256 → (bit_and b 0x80 == 0) ≡ ltb b 128
high_bit b h = ground (arith, holds_at 256 high_bit_test b high_bit_table h)
