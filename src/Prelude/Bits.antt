-- ===== src/Prelude/Bits.antt =====
-- `|` of fields that do not overlap as a sum, `&` with a low mask as a remainder, and `^` twice
-- with the same number, at every width.
use Prim.Native.Nat.{
  ℕ, zero, suc, ◌+◌, ◌-◌, ◌*◌, ◌/◌, ◌%◌, ◌^◌, ◌≤◌, ◌<◌, max, min, bit_and, bit_or, bit_xor, differ,
  digits, bit_and-bitwise, bit_or-bitwise, bit_xor-bitwise,
}
use mathlib.Core.Path.{◌≡◌, refl, ap, sym, ◌∙◌}
use native.Mathlib.Nat.{pow-suc, one-le-pow}
use native.Mathlib.Omega.{arith}

-- The recursion on digits does not depend on its fuel once that covers the first number.
module _ (pad : ℕ → ℕ) (op : ℕ → ℕ → ℕ) where
  digits-zero : (k y : ℕ) → digits pad op k 0 y ≡ pad y
  digits-zero zero y = refl
  digits-zero (suc k) y = refl

  digits_enough : (k x : ℕ) → x ≤ k → (l y : ℕ) → x ≤ l → digits pad op k x y ≡ digits pad op l x y
  digits_enough k zero covered l y also = digits-zero k y ∙ sym (digits-zero l y)
  digits_enough zero (suc x) covered l y also = absurd (omega arith)
  digits_enough (suc k) (suc x) covered zero y also = absurd (omega arith)
  digits_enough (suc k) (suc x) covered (suc l) y also =
      let half = suc x / 2 in
      ap (λ t. t * 2 + op (suc x % 2) (y % 2))
        (digits_enough k half (omega arith) l (y / 2) (omega arith))

-- The lowest binary digit, and the rest.
bit_or_digit : (a b : ℕ) → bit_or a b ≡ bit_or (a / 2) (b / 2) * 2 + max (a % 2) (b % 2)
bit_or_digit zero b = omega (arith, bit_or-bitwise 0 b, bit_or-bitwise 0 (b / 2))
bit_or_digit (suc a) b = omega (
  arith,
  bit_or-bitwise (suc a) b,
  bit_or-bitwise (suc a / 2) (b / 2),
  digits_enough (λ y. y) max a (suc a / 2) (omega arith) (suc a / 2) (b / 2) (omega arith),
)

bit_and_digit : (a b : ℕ) → bit_and a b ≡ bit_and (a / 2) (b / 2) * 2 + min (a % 2) (b % 2)
bit_and_digit zero b = omega (arith, bit_and-bitwise 0 b, bit_and-bitwise 0 (b / 2))
bit_and_digit (suc a) b = omega (
  arith,
  bit_and-bitwise (suc a) b,
  bit_and-bitwise (suc a / 2) (b / 2),
  digits_enough (λ y. 0) min a (suc a / 2) (omega arith) (suc a / 2) (b / 2) (omega arith),
)

differ-mod : (a b : ℕ) → a < 2 → b < 2 → differ a b ≡ (a + b) % 2
differ-mod zero b ha hb = omega arith
differ-mod (suc zero) zero ha hb = omega arith
differ-mod (suc zero) (suc zero) ha hb = omega arith
differ-mod (suc zero) (suc (suc b)) ha hb = absurd (omega arith)
differ-mod (suc (suc a)) b ha hb = absurd (omega arith)

bit_xor_digit : (a b : ℕ) → bit_xor a b ≡ bit_xor (a / 2) (b / 2) * 2 + (a % 2 + b % 2) % 2
bit_xor_digit zero b = omega (arith, bit_xor-bitwise 0 b, bit_xor-bitwise 0 (b / 2))
bit_xor_digit (suc a) b = omega (
  arith,
  differ-mod (suc a % 2) (b % 2) (omega arith) (omega arith),
  bit_xor-bitwise (suc a) b,
  bit_xor-bitwise (suc a / 2) (b / 2),
  digits_enough (λ y. y) differ a (suc a / 2) (omega arith) (suc a / 2) (b / 2) (omega arith),
)

bit_or-zero_below : (n a : ℕ) → a ≤ n → bit_or a 0 ≡ a
bit_or-zero_below n zero h = refl
bit_or-zero_below zero (suc a) h = absurd (omega arith)
bit_or-zero_below (suc n) (suc a) h =
    omega (arith, bit_or_digit (suc a) 0, bit_or-zero_below n (suc a / 2) (omega arith))

bit_and-zero_below : (n a : ℕ) → a ≤ n → bit_and a 0 ≡ 0
bit_and-zero_below n zero h = refl
bit_and-zero_below zero (suc a) h = absurd (omega arith)
bit_and-zero_below (suc n) (suc a) h =
    omega (arith, bit_and_digit (suc a) 0, bit_and-zero_below n (suc a / 2) (omega arith))

-- A high field and a low one of `k` bits.
pub bit_or_disjoint : (k q r : ℕ) → r < 2 ^ k → bit_or (q * 2 ^ k) r ≡ q * 2 ^ k + r
bit_or_disjoint zero q r h = ground (arith, bit_or-zero_below q q)
bit_or_disjoint (suc k) q r h = ground (
  arith,
  bit_or_digit (q * 2 ^ suc k) r,
  ap (λ (t : ℕ). q * t) (pow-suc 2 k),
  pow-suc 2 k,
  bit_or_disjoint k q (r / 2),
)

bit_and_fields : (k q r : ℕ) → r < 2 ^ k → bit_and (q * 2 ^ k + r) (2 ^ k - 1) ≡ r
bit_and_fields zero q r h = omega (arith, bit_and-zero_below (q * 1 + r) (q * 1 + r) (omega arith))
bit_and_fields (suc k) q r h = ground (
  arith,
  bit_and_digit (q * 2 ^ suc k + r) (2 ^ suc k - 1),
  ap (λ (t : ℕ). q * t) (pow-suc 2 k),
  pow-suc 2 k,
  one-le-pow k 2,
  bit_and_fields k q (r / 2),
)

-- The mask of the `k` lowest bits.
pub bit_and_low : (k a : ℕ) → bit_and a (2 ^ k - 1) ≡ a % 2 ^ k
bit_and_low k a = ground (arith, one-le-pow k 2, bit_and_fields k (a / 2 ^ k) (a % 2 ^ k))

xor_twice_below : (n x k : ℕ) → x + k ≤ n → bit_xor (bit_xor x k) k ≡ x
xor_twice_below zero x k h =
    let x=0 : x ≡ 0 = omega arith in let k=0 : k ≡ 0 = omega arith in rw (x=0, k=0)
xor_twice_below (suc n) x k h =
    ground
      (arith, bit_xor_digit x k, bit_xor_digit (bit_xor x k) k, xor_twice_below n (x / 2) (k / 2))

-- Masking twice with the same key gives the number back.
pub bit_xor_twice : (x k : ℕ) → bit_xor (bit_xor x k) k ≡ x
bit_xor_twice x k = xor_twice_below (x + k) x k (omega arith)
