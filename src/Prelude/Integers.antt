-- ===== src/Prelude/Integers.antt =====
-- The integers over the native numbers.
use Prim.Native.Nat.{ℕ, zero, suc, ◌+◌, ◌-◌}
use mathlib.Core.Bool.{Bool, true, false}
use eiptnd.Prelude.Tests.{if◌then◌else◌, ltb}

-- The integers; `negsuc n` is - n - 1.
pub data ℤ : Type 0 where
  pos negsuc : ℕ → ℤ

-- - n
abbrev pub neg_of : ℕ → ℤ
neg_of zero = pos zero
neg_of (suc n) = negsuc n

abbrev pub -ℤ : ℤ → ℤ
-ℤ (pos n) = neg_of n
-ℤ (negsuc n) = pos (suc n)

-- a - b
abbrev pub difference : ℕ → ℕ → ℤ
difference a b = if ltb a b then neg_of (b - a) else pos (a - b)

infixl 65 ◌+ℤ◌
abbrev pub ◌+ℤ◌ : ℤ → ℤ → ℤ
pos a +ℤ pos b = pos (a + b)
pos a +ℤ negsuc b = difference a (suc b)
negsuc a +ℤ pos b = difference b (suc a)
negsuc a +ℤ negsuc b = negsuc (suc (a + b))

abbrev pub less : ℤ → ℤ → Bool
less (pos a) (pos b) = ltb a b
less (pos a) (negsuc b) = false
less (negsuc a) (pos b) = true
less (negsuc a) (negsuc b) = ltb b a
