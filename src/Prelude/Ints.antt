-- ===== src/Prelude/Ints.antt =====
-- Signed counters. A C `int` is taken for an integer: what goes past 2^31 is undefined there.
use Prim.Native.Nat.{ℕ, zero, suc, ◌+◌, ◌-◌}
use mathlib.Core.Bool.{Bool, true, false}
use mod_audio_stream.Prelude.Tests.{leb, if◌then◌else◌}

pub data ℤ : Type 0 where
  pos negsuc : ℕ → ℤ

infixl 20 ◌+ℤ◌
unfoldable pub ◌+ℤ◌ : ℤ → ℕ → ℤ
pos m +ℤ n = pos (m + n)
negsuc m +ℤ n = if leb n m then negsuc (m - n) else pos (n - suc m)

unfoldable pub pred : ℤ → ℤ
pred (pos zero) = negsuc 0
pred (pos (suc n)) = pos n
pred (negsuc n) = negsuc (suc n)

-- `z <= 0`.
unfoldable pub is_spent : ℤ → Bool
is_spent (pos zero) = true
is_spent (pos (suc n)) = false
is_spent (negsuc n) = true
