-- ===== src/Common/Integers.antt =====
-- The integers of Go's `int` and `time.Duration`, over native numbers.
use Prim.Native.Nat.{ℕ, ◌-◌, ◌%◌}
use mathlib.Core.Bool.{Bool, true, false}
use fabric_snaps.Common.Tests.{eqb, ltb}

pub data ℤ : Type 0 where
  pos : ℕ → ℤ
  negsuc : ℕ → ℤ

abbrev pub is_zero : ℤ → Bool
is_zero (pos n) = eqb n 0
is_zero (negsuc n) = false

-- `int32(i)`, as its two's complement below 2 ^ 32
abbrev pub to_int32 : ℤ → ℕ
to_int32 (pos n) = n % 4294967296
to_int32 (negsuc n) = 4294967295 - n % 4294967296

abbrev pub ltz : ℤ → ℤ → Bool
ltz (pos m) (pos n) = ltb m n
ltz (pos m) (negsuc n) = false
ltz (negsuc m) (pos n) = true
ltz (negsuc m) (negsuc n) = ltb n m
