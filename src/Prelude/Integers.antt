-- ===== src/Prelude/Integers.antt =====
-- Integers over the native numbers, under the library's names.
use Prim.Native.Nat.{ℕ, zero, suc}
use mathlib.Core.Bool.{Bool, true, false}

pub data ℤ : Type 0 where
  pos negsuc : ℕ → ℤ

abbrev pub sucℤ : ℤ → ℤ
sucℤ (pos n) = pos (suc n)
sucℤ (negsuc zero) = pos 0
sucℤ (negsuc (suc n)) = negsuc n

abbrev pub predℤ : ℤ → ℤ
predℤ (pos zero) = negsuc 0
predℤ (pos (suc n)) = pos n
predℤ (negsuc n) = negsuc (suc n)

abbrev pub is_zero : ℤ → Bool
is_zero (pos zero) = true
is_zero _ = false
