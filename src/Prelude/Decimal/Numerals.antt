-- ===== src/Prelude/Decimal/Numerals.antt =====
-- The numeral of a number reads back.
use Prim.Native.Char.{Char, code}
use Prim.Native.Nat.{ℕ, zero, suc, ◌+◌, ◌-◌, ◌*◌, ◌/◌, ◌%◌, ◌^◌, ◌<◌}
use Prim.Native.String.{String}
use mathlib.Core.Path.{◌≡◌, refl, ◌∙◌, ap, sym, subst}
use mathlib.Core.Bool.{true, false, ◌&&◌}
use mathlib.Core.Logic.{inl, inr}
use mathlib.Core.Option.{some}
use text.Mathlib.TextLemmas.{head-eq_of_cons-eq}
use native.Mathlib.Omega.{arith}
use intentproof_tools.Prelude.Tests.{
  ltb, leb, ◌==◌, Eq-ℕ, Bool-cases, nat_eq_iff, check_below-holds,
}
use intentproof_tools.Prelude.Bytes.{hex_digit}
use intentproof_tools.Prelude.Int.{ℤ, pos, negsuc, pos_part, neg_part}
use intentproof_tools.Prelude.Decimal.{
  digits_before, format_nat, format_int, is_digit, digits_value, parse_nat, parse_int, positive,
  negative,
}

-- The digit of a number below ten.
hex_digit-code : (n : ℕ) → n < 10 → code (hex_digit n) ≡ 48 + n
unfolding hex_digit
hex_digit-code n h =
    (nat_eq_iff (code (hex_digit n)) (48 + n)).0
      (check_below-holds (λ m. code (hex_digit m) == 48 + m) 10 n h refl)

-- A digit is read as ten times the number so far and its own.
digits_value-digit :
    (m n : ℕ)
    → n < 10
    → (more : String)
    → digits_value m (String.◌∷◌ (hex_digit n) more) ≡ digits_value (m * 10 + n) more
unfolding digits_value is_digit
digits_value-digit m n h more =
    let d = hex_digit-code n h in
    let e : 48 + n - 48 ≡ n = omega arith in
    let f : (leb 48 (48 + n) && leb (48 + n) 57) ≡ true = ground arith in rw (d, f, e) refl

-- Digits that were written before others are read first.
digits_before_lem :
    (fuel n : ℕ) (more : String)
    → n < 10 ^ fuel
    → digits_value 0 (digits_before fuel n more) ≡ digits_value n more
unfolding digits_before digits_value is_digit
digits_before_lem zero n more h = ap (λ m. digits_value m more) (omega arith)
digits_before_lem (suc fuel) n more h = elim (Bool-cases (ltb n 10)) [
  | inl e ↦
      let z : n % 10 ≡ n = ground arith in
      rw (e, z)
        (digits_value-digit 0 n (ground arith) more ∙ ap (λ m. digits_value m more) (omega arith))
  | inr e ↦ rw e (
      digits_before_lem fuel (n / 10) (String.◌∷◌ (hex_digit (n % 10)) more) (omega arith)
      ∙ digits_value-digit (n / 10) (n % 10) (omega arith) more
      ∙ ap (λ m. digits_value m more) (omega arith))
]

abbrev StartsWithDigit : String → Type 0
StartsWithDigit t = (c : Char) × (s : String) × (t ≡ String.◌∷◌ c s) × (is_digit c ≡ true)

hex_digit-is_digit : (n : ℕ) → n < 10 → is_digit (hex_digit n) ≡ true
unfolding is_digit
hex_digit-is_digit n h = let d = hex_digit-code n h in rw d (ground arith)

-- Digits are written before what is there.
digits_before-StartsWithDigit :
    (fuel n : ℕ) (c : Char) (s : String)
    → is_digit c ≡ true
    → StartsWithDigit (digits_before fuel n (String.◌∷◌ c s))
unfolding digits_before
digits_before-StartsWithDigit zero n c s h = (c, s, refl, h)
digits_before-StartsWithDigit (suc fuel) n c s h =
    let d = hex_digit-is_digit (n % 10) (omega arith) in
    elim (Bool-cases (ltb n 10)) [
      | inl e ↦ rw e (hex_digit (n % 10), String.◌∷◌ c s, refl, d)
      | inr e ↦
          rw e (digits_before-StartsWithDigit fuel (n / 10) (hex_digit (n % 10)) (String.◌∷◌ c s) d)
    ]

format_nat-StartsWithDigit : (n : ℕ) → StartsWithDigit (format_nat n)
unfolding format_nat digits_before
format_nat-StartsWithDigit n =
    let d = hex_digit-is_digit (n % 10) (omega arith) in
    elim (Bool-cases (ltb n 10)) [
      | inl e ↦ rw e (hex_digit (n % 10), "", refl, d)
      | inr e ↦ rw e (digits_before-StartsWithDigit 19 (n / 10) (hex_digit (n % 10)) "" d)
    ]

parse_nat_lem : (t : String) → StartsWithDigit t → parse_nat t ≡ digits_value 0 t
unfolding parse_nat
parse_nat_lem String.[] (c, s, e, h) = cc
parse_nat_lem (String.◌∷◌ d t) h = refl

-- A number of twenty digits at most is the value of its numeral.
pub parse_nat-format_nat : (n : ℕ) → n < 10 ^ 20 → parse_nat (format_nat n) ≡ some n
unfolding format_nat digits_value
parse_nat-format_nat n h =
    parse_nat_lem (format_nat n) (format_nat-StartsWithDigit n) ∙ digits_before_lem 20 n "" h

digit_is_no_sign :
    (c : Char) → is_digit c ≡ true → ((code c == 0x2d) ≡ false) × ((code c == 0x2b) ≡ false)
unfolding is_digit
digit_is_no_sign c h = (ground arith, ground arith)

parse_int_unsigned : (t : String) → StartsWithDigit t → parse_int t ≡ positive (parse_nat t)
unfolding parse_int is_digit
parse_int_unsigned String.[] (c, s, e, h) = cc
parse_int_unsigned (String.◌∷◌ d t) (c, s, e, h) =
    let g = subst (λ x. is_digit x ≡ true) (sym (head-eq_of_cons-eq e)) h in
    let (a, b) = digit_is_no_sign d g in rw (a, b) refl

-- A 64-bit integer is read back from its numeral.
pub parse_int-format_int :
    (i : ℤ)
    → pos_part i < 9223372036854775808
    → neg_part i < 9223372036854775809
    → parse_int (format_int i) ≡ some i
unfolding format_int parse_int
parse_int-format_int (pos n) h k =
    parse_int_unsigned (format_nat n) (format_nat-StartsWithDigit n)
    ∙ ap positive (parse_nat-format_nat n (omega arith))
    ∙ ground arith
parse_int-format_int (negsuc n) h k =
    ap negative (parse_nat-format_nat (suc n) (omega arith)) ∙ ground arith

-- A sign in front is allowed.
pub parse_int-plus :
    (n : ℕ) → n < 9223372036854775808 → parse_int (String.◌∷◌ "+" (format_nat n)) ≡ some (pos n)
unfolding parse_int
parse_int-plus n h = ap positive (parse_nat-format_nat n (omega arith)) ∙ ground arith
