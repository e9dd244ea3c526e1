-- ===== src/Common/Int.antt =====
-- Signed Go integers (`time.Duration`, `int`) over the native numbers.
use Prim.Native.Nat.{ℕ, zero, suc}
use mathlib.Core.Bool.{Bool, true, false}
use qzmq.Common.Tests.{ltb}

-- `negsuc n` is -(n + 1).
pub data ℤ : Type 0 where
  pos : ℕ → ℤ
  negsuc : ℕ → ℤ

abbrev pub is_zero : ℤ → Bool
is_zero (pos zero) = true
is_zero (pos (suc n)) = false
is_zero (negsuc n) = false

-- 0 < d.
abbrev pub is_positive : ℤ → Bool
is_positive (pos n) = ltb 0 n
is_positive (negsuc n) = false

-- d < n for a number of nanoseconds `n` that is not negative.
abbrev pub lt_elapsed : ℤ → ℕ → Bool
lt_elapsed (pos d) n = ltb d n
lt_elapsed (negsuc d) n = true
