-- ===== src/Api/Amount.antt =====
-- asset_amount_to_string of read_only (sql_db_plugin.hpp) as a decimal number.
use Prim.Native.String.{◌++◌ as append, count}
use package.text.Mathlib.TextLemmas.{cons-append, nil-append, append_assoc}
use native.Mathlib.Nat.{div-add-mod', mod-lt, le-div_iff_mul-le}
use eos_sql_db_plugin.Base.{
  ℕ, zero, suc, ◌+◌, ◌*◌, ◌/◌, ◌%◌, ◌^◌, ◌<◌, ◌≤◌, arith, String, ◌≡◌, refl, ap, Bool, true, false,
  ◌==◌, if◌then◌else◌,
}
use eos_sql_db_plugin.Base.Int.{pos, negsuc, is_negative}
use eos_sql_db_plugin.Base.Int64.{bound, magnitude, neg, rem, plus, in_range, abs_lem, in_range_lem}
use eos_sql_db_plugin.Chain.{Asset}
use eos_sql_db_plugin.Api.Chainbase.{Chainbase}
use eos_sql_db_plugin.Api.Tokens.{erase_first, asset_amount_to_string}
use eos_sql_db_plugin.Api.Decimal.{
  digit, decimal, padded, value, IsDigits, value-decimal, decimal-IsDigits, decimal-pow,
  value-padded, padded-IsDigits, count-padded, ten-pow_pos, ten-pow_le,
}

-- What nodeos and fc document: asset::precision() is the power of ten of decimals(), and
-- fc::to_string writes a number in decimal, a negative one behind its sign.
pub record DecimalLaws (db : Chainbase) : Type 0 where
  pub precision_is : (a : Asset) → db.precision_of a ≡ 10 ^ a.decimals
  pub to_string_is : (n : ℕ) → db.to_string (pos n) ≡ decimal n
  pub to_string_negative : (n : ℕ) → db.to_string (negsuc n) ≡ append "-" (decimal (suc n))

abbrev pub sign_of : Asset → String
sign_of a = if is_negative a.amount then "-" else ""

erase_first-digit : (n : ℕ) (s : String) → erase_first (append (digit n) s) ≡ s
unfolding digit
erase_first-digit n s = rw (cons-append, nil-append) refl

not_below : ¬ (1 ≤ 0)
not_below = omega arith

module _ (db : Chainbase) (laws : DecimalLaws db) where
  open laws use {precision_is, to_string_is, to_string_negative}

  rest-lt : (n d : ℕ) → n % 10 ^ d < 10 ^ d
  rest-lt n d = mod-lt n (ten-pow_pos d)

  -- The sum that is printed for the fraction is in the range of int64_t.
  sum-lt : (n d : ℕ) → d ≤ 18 → 10 ^ d + n % 10 ^ d < bound
  sum-lt n d h = omega (arith, rest-lt n d, ten-pow_le d h)

  -- The digits behind the point.
  fract_lem :
      (n d : ℕ)
      → d ≤ 18
      → erase_first (db.to_string (in_range (10 ^ d + n % 10 ^ d))) ≡ padded d (n % 10 ^ d)
  fract_lem n d h =
      rw (in_range_lem _ (sum-lt n d h), to_string_is, decimal-pow d (n % 10 ^ d) (rest-lt n d))
        (erase_first-digit 1 (padded d (n % 10 ^ d)))

  -- For an amount above the least int64_t and at most 18 decimals, the most that a symbol can have, no
  -- number overflows, and the text of an asset is its sign, the decimal digits of the whole part and, if the asset has
  -- decimals, a point and exactly that many digits; read together they spell the amount: no digit is
  -- lost, also where the fraction begins with zeros.
  pub asset_amount_to_string-spells :
      (a : Asset)
      → magnitude a.amount < bound
      → a.decimals ≤ 18
      → (whole : String) × (fract : String) × (asset_amount_to_string db a
          ≡ append (sign_of a) (if a.decimals == 0 then whole else append whole (append "." fract)))
        × IsDigits whole
        × IsDigits fract
        × (count fract ≡ a.decimals)
        × (value 0 whole * 10 ^ a.decimals + value 0 fract ≡ magnitude a.amount)
  unfolding asset_amount_to_string
  asset_amount_to_string-spells a h d' =
      let n = magnitude a.amount in
      let d = a.decimals in
      (
        decimal (n / 10 ^ d),
        padded d (n % 10 ^ d),
        rw (abs_lem a.amount h, precision_is a, fract_lem n d d', to_string_is) refl,
        decimal-IsDigits (n / 10 ^ d),
        padded-IsDigits d (n % 10 ^ d),
        count-padded d (n % 10 ^ d),
        rw (value-decimal, value-padded d (n % 10 ^ d) (rest-lt n d)) (div-add-mod' n (10 ^ d)),
      )

  negative_text : (q : ℕ) → 1 ≤ q → db.to_string (neg q) ≡ append "-" (decimal q)
  negative_text zero h = absurd (not_below h)
  negative_text (suc n) h = to_string_negative n

  behind_sign :
      (b : Bool) (w f : String)
      → (if b then append "-" w else append (append "-" w) f)
        ≡ append "-" (if b then w else append w f)
  behind_sign true w f = refl
  behind_sign false w f = append_assoc "-" w f

  -- Of the least int64_t, whose absolute value is not in range, the text begins with two signs.
  pub asset_amount_to_string_least :
      (decimals : ℕ) (symbol_name : String)
      → decimals ≤ 18
      → (rest : String) × (asset_amount_to_string db (record {
        amount = negsuc 9223372036854775807;
        decimals = decimals;
        symbol_name = symbol_name;
      })
          ≡ append "-" (append "-" rest))
  unfolding asset_amount_to_string
  asset_amount_to_string_least decimals symbol_name h =
      let q : ℕ = bound / 10 ^ decimals in
      let big : 1 ≤ q =
        (le-div_iff_mul-le (ten-pow_pos decimals)).1 (omega (arith, ten-pow_le decimals h)) in
      let fract = append "." (
        erase_first (
          db.to_string
            (plus (10 ^ decimals) (rem (negsuc 9223372036854775807) (10 ^ decimals))))) in
      (
        if decimals == 0 then decimal q else append (decimal q) fract,
        rw (precision_is, negative_text q big)
            (ap (append "-") (behind_sign (decimals == 0) (decimal q) fract)),
      )
