-- ===== src/Base/Machine.antt =====
-- C's integer types over the native numbers: `unsigned long` keeps 64 bits. A signed `int` is an
-- integer, under the library's names.
use Prim.Native.Nat.{ℕ, zero, suc, ◌-◌, ◌%◌, ◌^◌}
use mathlib.Core.Bool.{Bool, true, false}
use mstone.Base.Tests.{ltb, if◌then◌else◌}

abbrev pub u64_mod : ℕ
u64_mod = 2 ^ 64

abbrev pub u64 : ℕ → ℕ
u64 n = n % u64_mod

-- `negsuc n` is -(n + 1).
pub data ℤ : Type 0 where
  pos : ℕ → ℤ
  negsuc : ℕ → ℤ

abbrev pub neg : ℤ → ℤ
neg (pos zero) = pos zero
neg (pos (suc n)) = negsuc n
neg (negsuc n) = pos (suc n)

-- `0 < z`, `z < 0` and `z == 0`
abbrev pub is_positive : ℤ → Bool
is_positive (pos zero) = false
is_positive (pos (suc n)) = true
is_positive (negsuc n) = false

abbrev pub is_negative : ℤ → Bool
is_negative (pos n) = false
is_negative (negsuc n) = true

abbrev pub is_zero : ℤ → Bool
is_zero (pos zero) = true
is_zero (pos (suc n)) = false
is_zero (negsuc n) = false

-- `x < y`
abbrev pub lt_int : ℤ → ℤ → Bool
lt_int (pos m) (pos n) = ltb m n
lt_int (pos m) (negsuc n) = false
lt_int (negsuc m) (pos n) = true
lt_int (negsuc m) (negsuc n) = ltb n m

abbrev pub u32_mod : ℕ
u32_mod = 2 ^ 32

-- the `int` that has the low 32 bits of a number
abbrev pub int_of : ℕ → ℤ
int_of n = let w = n % u32_mod in if ltb w (2 ^ 31) then pos w else negsuc (u32_mod - 1 - w)
