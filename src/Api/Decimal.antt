-- ===== src/Api/Decimal.antt =====
-- Decimal texts: those that fc::to_string gives of an int64_t that is not negative, those of a fixed
-- number of digits, and the number that a text of digits spells.
use Prim.Native.Char.{code}
use Prim.Native.String.{◌++◌ as append, count, char_at}
use package.text.Mathlib.TextLemmas.{
  append_assoc, cons-append, nil-append, length-append, length-cons,
}
use native.Mathlib.Nat.{pow-succ', pow-le-pow_right}
use eos_sql_db_plugin.Base.{
  ℕ, zero, suc, ◌+◌, ◌-◌, ◌*◌, ◌/◌, ◌%◌, ◌^◌, ◌<◌, ◌≤◌, String, ◌≡◌, refl, ◌∙◌, ltb, Bool-cases,
  inl, inr, false, arith, if◌then◌else◌,
}

unfoldable pub digit : ℕ → String
digit n = String.◌∷◌ (char_at "0123456789" n) String.[]

-- `fuel` is more than `n`.
emit : (fuel n : ℕ) → String
emit zero n = String.[]
emit (suc fuel) n =
    let higher = emit fuel (n / 10) in if ltb n 10 then digit n else append higher (digit (n % 10))

-- The decimal text of a number, without leading zeros.
unfoldable pub decimal : ℕ → String
unfolding emit digit
decimal n = emit (suc n) n

-- The last `d` decimal digits of a number.
unfoldable pub padded : (d n : ℕ) → String
padded zero n = String.[]
padded (suc d) n = append (padded d (n / 10)) (digit (n % 10))

-- The number that the digits of a text spell behind `acc`.
unfoldable pub value : (acc : ℕ) → String → ℕ
value acc String.[] = acc
value acc (String.◌∷◌ c s) = value (acc * 10 + (code c - 48)) s

abbrev pub IsDigits : String → Type 0
IsDigits String.[] = Unit {0}
IsDigits (String.◌∷◌ c s) = (48 ≤ code c) × (code c ≤ 57) × IsDigits s

IsDigits-append : (s t : String) → IsDigits s → IsDigits t → IsDigits (append s t)
IsDigits-append String.[] t a b = rw nil-append b
IsDigits-append (String.◌∷◌ c s) t (lo, hi, a) b = rw cons-append (lo, hi, IsDigits-append s t a b)

-- Every digit, by evaluation.
code_of_digit : (n : ℕ) → n < 10 → code (char_at "0123456789" n) ≡ 48 + n
code_of_digit zero h = refl
code_of_digit (suc zero) h = refl
code_of_digit (suc (suc zero)) h = refl
code_of_digit (suc (suc (suc zero))) h = refl
code_of_digit (suc (suc (suc (suc zero)))) h = refl
code_of_digit (suc (suc (suc (suc (suc zero))))) h = refl
code_of_digit (suc (suc (suc (suc (suc (suc zero)))))) h = refl
code_of_digit (suc (suc (suc (suc (suc (suc (suc zero))))))) h = refl
code_of_digit (suc (suc (suc (suc (suc (suc (suc (suc zero)))))))) h = refl
code_of_digit (suc (suc (suc (suc (suc (suc (suc (suc (suc zero))))))))) h = refl
code_of_digit (suc (suc (suc (suc (suc (suc (suc (suc (suc (suc n)))))))))) h = absurd (omega arith)

digit-IsDigits : (n : ℕ) → n < 10 → IsDigits (digit n)
unfolding digit
digit-IsDigits n h = omega (arith, code_of_digit n h)

value-digit : (acc n : ℕ) → n < 10 → value acc (digit n) ≡ acc * 10 + n
unfolding value digit
value-digit acc n h = omega (arith, code_of_digit n h)

value-append : (acc : ℕ) (s t : String) → value acc (append s t) ≡ value (value acc s) t
unfolding value
value-append acc String.[] t = rw nil-append refl
value-append acc (String.◌∷◌ c s) t = rw cons-append (value-append (acc * 10 + (code c - 48)) s t)

value-emit : (fuel n : ℕ) → n < fuel → value 0 (emit fuel n) ≡ n
unfolding emit
value-emit zero n h = absurd (omega arith)
value-emit (suc fuel) n h = elim (Bool-cases (ltb n 10)) [
  | inl small ↦ rw small (value-digit 0 n (ground arith) ∙ omega arith)
  | inr large ↦
      let ih = value-emit fuel (n / 10) (ground arith) in
      rw (large, value-append, ih) (value-digit (n / 10) (n % 10) (omega arith) ∙ omega arith)
]

emit-IsDigits : (fuel n : ℕ) → n < fuel → IsDigits (emit fuel n)
unfolding emit
emit-IsDigits zero n h = absurd (omega arith)
emit-IsDigits (suc fuel) n h = elim (Bool-cases (ltb n 10)) [
  | inl small ↦ rw small (digit-IsDigits n (ground arith))
  | inr large ↦ rw large (
      IsDigits-append _ _ (emit-IsDigits fuel (n / 10) (ground arith))
        (digit-IsDigits (n % 10) (omega arith)))
]

-- More fuel changes nothing.
emit_enough : (f g n : ℕ) → n < f → n < g → emit f n ≡ emit g n
unfolding emit
emit_enough zero g n h k = absurd (omega arith)
emit_enough (suc f) zero n h k = absurd (omega arith)
emit_enough (suc f) (suc g) n h k = elim (Bool-cases (ltb n 10)) [
  | inl small ↦ rw small refl
  | inr large ↦ rw (large, emit_enough f g (n / 10) (ground arith) (ground arith)) refl
]

pub value-decimal : (n : ℕ) → value 0 (decimal n) ≡ n
unfolding decimal
value-decimal n = value-emit (suc n) n (omega arith)

pub decimal-IsDigits : (n : ℕ) → IsDigits (decimal n)
unfolding decimal
decimal-IsDigits n = emit-IsDigits (suc n) n (omega arith)

decimal_step : (n : ℕ) → 10 ≤ n → decimal n ≡ append (decimal (n / 10)) (digit (n % 10))
unfolding decimal emit
decimal_step n h =
    let large : ltb n 10 ≡ false = ground arith in
    rw (large, emit_enough n (suc (n / 10)) (n / 10) (omega arith) (omega arith)) refl

pub ten-pow_pos : (d : ℕ) → 1 ≤ 10 ^ d
ten-pow_pos zero = omega arith
ten-pow_pos (suc d) = omega (arith, ten-pow_pos d, pow-succ' 10 d)

pub ten-pow_le : (d : ℕ) → d ≤ 18 → 10 ^ d ≤ 1000000000000000000
ten-pow_le d h = pow-le-pow_right (omega arith) h

one_text : decimal (10 ^ 0 + 0) ≡ append (digit 1) (padded 0 0)
unfolding decimal padded
one_text = refl

-- The text of a number just above a power of ten is a 1 and the digits of the rest.
pub decimal-pow : (d n : ℕ) → n < 10 ^ d → decimal (10 ^ d + n) ≡ append (digit 1) (padded d n)
decimal-pow zero n h = let e : n ≡ 0 = omega arith in rw e one_text
decimal-pow (suc d) n h =
    let e : 10 ^ suc d ≡ 10 * 10 ^ d = pow-succ' 10 d in
    let below : n < 10 * 10 ^ d = rw (← e) h in
    let tenth : (10 * 10 ^ d + n) / 10 ≡ 10 ^ d + n / 10 = omega arith in
    let last : (10 * 10 ^ d + n) % 10 ≡ n % 10 = omega arith in
    let large : 10 ≤ 10 * 10 ^ d + n = omega (arith, ten-pow_pos d) in
    rw e (
      decimal_step (10 * 10 ^ d + n) large
      ∙ rw (tenth, last, decimal-pow d (n / 10) (omega arith))
          (unfold padded in append_assoc (digit 1) (padded d (n / 10)) (digit (n % 10))))

pub value-padded : (d n : ℕ) → n < 10 ^ d → value 0 (padded d n) ≡ n
unfolding padded
value-padded zero n h = unfold value in omega arith
value-padded (suc d) n h =
    let below : n < 10 * 10 ^ d = omega (arith, pow-succ' 10 d) in
    rw (value-append, value-padded d (n / 10) (omega arith))
      (value-digit (n / 10) (n % 10) (omega arith) ∙ omega arith)

pub padded-IsDigits : (d n : ℕ) → IsDigits (padded d n)
unfolding padded
padded-IsDigits zero n = tt
padded-IsDigits (suc d) n =
    IsDigits-append _ _ (padded-IsDigits d (n / 10)) (digit-IsDigits (n % 10) (omega arith))

pub count-padded : (d n : ℕ) → count (padded d n) ≡ d
unfolding padded digit
count-padded zero n = refl
count-padded (suc d) n = rw (length-append, count-padded d (n / 10), length-cons) (omega arith)
