-- ===== src/Base/Int.antt =====
-- Signed results of C functions: a `long` as an integer over the native numbers.
use Prim.Native.Nat.{ℕ, zero, suc}
use mathlib.Core.Bool.{Bool, true, false}

-- `negsuc n` is -(n + 1).
pub data ℤ : Type 0 where
  pos : ℕ → ℤ
  negsuc : ℕ → ℤ

-- The value `-e` for an error number `e` that is not 0.
abbrev pub minus : ℕ → ℤ
minus zero = pos 0
minus (suc n) = negsuc n

abbrev pub is_negative : ℤ → Bool
is_negative (pos n) = false
is_negative (negsuc n) = true

-- The value as a condition of C.
abbrev pub is_nonzero : ℤ → Bool
is_nonzero (pos zero) = false
is_nonzero (pos (suc n)) = true
is_nonzero (negsuc n) = true
