-- ===== src/Canon/Es6/Fixed.antt =====
-- Integers in the safe range.
use text.Mathlib.TextLemmas.{cons-ne-nil}
use intentproof_tools.Prelude.{
  ◌<◌, ◌≡◌, refl, true, false, some, String, ◌==◌, Eq-String, ok, eq-false, arith,
}
use intentproof_tools.Prelude.Decimal.{format_int, parse_int}
use intentproof_tools.Prelude.Decimal.Numerals.{parse_int-format_int}
use intentproof_tools.Prelude.Int.{ℤ, pos_part, neg_part}
use intentproof_tools.Canon.Es6.{Floats, is_safe, encode_number}

safe_bounds :
    (i : ℤ)
    → is_safe i ≡ true
    → (pos_part i < 9223372036854775808) × (neg_part i < 9223372036854775809)
unfolding is_safe
safe_bounds i h = (ground arith, ground arith)

-- The empty text is no number.
nonempty : (s : String) (i : ℤ) → parse_int s ≡ some i → (s == "") ≡ false
unfolding parse_int
nonempty String.[] i h = cc
nonempty (String.◌∷◌ c s) i h = eq-false _ _ (cons-ne-nil c s)

module _ (floats : Floats) where
  -- The canonical form of an integer between -(2^53 - 1) and 2^53 - 1 is its decimal numeral, which is
  -- its own canonical form, whatever ParseFloat and FormatFloat do.
  pub encode_number-format_int :
      (i : ℤ) → is_safe i ≡ true → encode_number floats (format_int i) ≡ ok (format_int i)
  unfolding encode_number
  encode_number-format_int i h =
      let (a, b) = safe_bounds i h in
      let e = parse_int-format_int i a b in rw (nonempty (format_int i) i e, e, h) refl
