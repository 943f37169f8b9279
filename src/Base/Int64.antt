-- ===== src/Base/Int64.antt =====
-- Operations on int64_t, for results out of range as two's complement gives them.
use Prim.Native.Nat.{ℕ, zero, suc, ◌+◌, ◌-◌, ◌/◌, ◌%◌, ◌<◌}
use mathlib.Core.Path.{◌≡◌, refl}
use native.Mathlib.Omega.{arith}
use eos_sql_db_plugin.Base.Tests.{ltb, leb, ◌==◌, if◌then◌else◌}
use eos_sql_db_plugin.Base.Int.{ℤ, pos, negsuc}

-- 2 ^ 63
abbrev pub bound : ℕ
bound = 9223372036854775808

abbrev pub magnitude : ℤ → ℕ
magnitude (pos n) = n
magnitude (negsuc n) = suc n

abbrev pub neg : ℕ → ℤ
neg zero = pos 0
neg (suc n) = negsuc n

-- std::abs, which has no result in range for the least number.
abbrev pub abs : ℤ → ℤ
abs (pos n) = pos n
abs (negsuc n) = if suc n == bound then negsuc n else pos (suc n)

-- Division by a positive number, rounded towards 0, and its remainder.
abbrev pub quot : ℤ → ℕ → ℤ
quot (pos n) p = pos (n / p)
quot (negsuc n) p = neg (suc n / p)

abbrev pub rem : ℤ → ℕ → ℤ
rem (pos n) p = pos (n % p)
rem (negsuc n) p = neg (suc n % p)

-- A sum of two numbers in range.
abbrev pub in_range : ℕ → ℤ
in_range n = if ltb n bound then pos n else negsuc (bound + bound - 1 - n)

abbrev pub plus : ℕ → ℤ → ℤ
plus p (pos n) = in_range (p + n)
plus p (negsuc n) = if leb (suc n) p then pos (p - suc n) else neg (suc n - p)

pub abs_lem : (z : ℤ) → magnitude z < bound → abs z ≡ pos (magnitude z)
abs_lem (pos n) h = refl
abs_lem (negsuc n) h = ground arith

pub in_range_lem : (n : ℕ) → n < bound → in_range n ≡ pos n
in_range_lem n h = ground arith
