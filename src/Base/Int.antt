-- ===== src/Base/Int.antt =====
-- Signed integers over the native numbers.
use Prim.Native.Nat.{ℕ, suc}
use mathlib.Core.Bool.{Bool, true, false}

-- `negsuc n` is -(n + 1).
pub data ℤ : Type 0 where
  pos : ℕ → ℤ
  negsuc : ℕ → ℤ

-- `0 < z`
abbrev pub is_positive : ℤ → Bool
is_positive (pos Prim.Native.Nat.zero) = false
is_positive (pos (suc n)) = true
is_positive (negsuc n) = false

-- `z < 0`
abbrev pub is_negative : ℤ → Bool
is_negative (pos n) = false
is_negative (negsuc n) = true

-- `z == 0`
abbrev pub is_zero : ℤ → Bool
is_zero (pos Prim.Native.Nat.zero) = true
is_zero (pos (suc n)) = false
is_zero (negsuc n) = false
