-- ===== src/Canon/Es6.antt =====
-- Numbers in canonical form (pkg/canon/canon.go: encodeNumber, formatES6). `strconv.ParseFloat` and
-- `strconv.FormatFloat` are parameters.
pub mod Layout
pub mod Reads
pub mod Fixed
use Prim.Native.Char.{code}
use intentproof_tools.Prelude.{
  ℕ, zero, suc, ◌+◌, ◌-◌, ◌*◌, ◌^◌, ◌≡◌, refl, Bool, true, false, ◌&&◌, Option, none, some, Char,
  String, ltb, leb, ◌==◌, Eq-ℕ, Eq-String, if◌then◌else◌, Result, err, ok, or_err, text_len,
  take_text, drop_text, cut, repeat_text, ◌<>◌,
}
use intentproof_tools.Prelude.Decimal.{format_nat, format_int, parse_int}
use intentproof_tools.Prelude.Int.{ℤ, pos, negsuc, ◌+ℤ◌, pos_part, neg_part}
use intentproof_tools.Value.{Float64}

-- The loop over the last digits: zeros go, and the first digit stays.
abbrev drop_zero : Char → String → String
drop_zero c String.[] = if code c == 0x30 then "" else String.◌∷◌ c ""
drop_zero c s = String.◌∷◌ c s

drop_zeros : String → String
drop_zeros String.[] = ""
drop_zeros (String.◌∷◌ c s) = drop_zero c (drop_zeros s)

unfoldable pub strip_zeros : String → String
unfolding drop_zeros
strip_zeros String.[] = ""
strip_zeros (String.◌∷◌ c s) = String.◌∷◌ c (drop_zeros s)

-- The sign and the digits of the exponent `es`.
unfoldable pub exponent : ℤ → String
unfolding format_nat
exponent (pos es) = "+" <> format_nat es
exponent (negsuc es) = "-" <> format_nat (suc es)

unfoldable pub scientific : String → ℤ → String
unfolding exponent ◌+ℤ◌
scientific digits n =
    let mant =
      if text_len digits == 1 then digits else take_text 1 digits <> "." <> drop_text 1 digits in
    mant <> "e" <> exponent (n +ℤ negsuc 0)

-- The `switch` on k, the number of the digits, and n.
unfoldable pub layout : String → ℤ → String
unfolding scientific
layout digits (pos n) =
    if leb (text_len digits) n && leb n 21
    then digits <> repeat_text "0" (n - text_len digits)
    else if ltb 0 n && leb n 21
    then take_text n digits <> "." <> drop_text n digits
    else if n == 0
    then "0." <> repeat_text "0" 0 <> digits
    else scientific digits (pos n)
layout digits (negsuc n) =
    if ltb (suc n) 6
    then "0." <> repeat_text "0" (suc n) <> digits
    else scientific digits (negsuc n)

-- A float64 of `strconv.ParseFloat`, which may be infinite or no number.
pub data Double : Type 0 where
  finite : Float64 → Double
  not_a_number infinite : Double

pub data NumberError : Type 0 where
  empty_number : NumberError
  invalid_number non_finite : String → NumberError
  -- The run-time panic of a slice, if FormatFloat wrote no `e`.
  panics : NumberError

-- The mantissa without its point.
abbrev without_point : String → Option (String × String) → String
without_point mantissa none = mantissa
without_point mantissa (some (before, behind)) = before <> behind

-- `-(1<<53)+1 <= i && i <= (1<<53)-1`
unfoldable pub is_safe : ℤ → Bool
is_safe i = leb (pos_part i) (2 ^ 53 - 1) && leb (neg_part i) (2 ^ 53 - 1)

-- ParseFloat, whose error is none, and FormatFloat with the format 'e' or 'g' and precision -1.
pub record Floats : Type 0 where
  pub parse_float : String → Option Double
  pub format_e : Float64 → String
  pub format_g : Float64 → String

module _ (floats : Floats) where
  -- Behind FormatFloat: the text is taken apart. Without an `e` the slice would panic, which is none.
  abbrev with_exponent : Bool → Float64 → String → Option ℤ → String
  with_exponent negative f mantissa none = floats.format_g f
  with_exponent negative f mantissa (some exp) =
      let out = layout (strip_zeros (without_point mantissa (cut "." mantissa))) (exp +ℤ pos 1) in
      if negative then "-" <> out else out

  abbrev taken_apart : Bool → Float64 → Option (String × String) → Option String
  taken_apart negative f none = none
  taken_apart negative f (some (mantissa, exp_str)) =
      some (with_exponent negative f mantissa (parse_int exp_str))

  -- `f` is the magnitude, and the sign is kept aside.
  unfoldable pub format_magnitude : Bool → Float64 → Option String
  unfolding strip_zeros layout cut parse_int ◌+ℤ◌
  format_magnitude negative f = taken_apart negative f (cut "e" (floats.format_e f))

  format_signed : ℤ → Option String
  unfolding format_magnitude
  format_signed (pos zero) = some "0"
  format_signed (pos (suc n)) = format_magnitude false (record { units = pos (suc n) })
  format_signed (negsuc n) = format_magnitude true (record { units = pos (suc n) })

  unfoldable pub format_es6 : Float64 → Option String
  unfolding format_signed
  format_es6 f = format_signed f.units

  abbrev float_number : String → Option Double → Result NumberError String
  float_number s none = err (invalid_number s)
  float_number s (some not_a_number) = err (non_finite s)
  float_number s (some infinite) = err (non_finite s)
  float_number s (some (finite f)) = or_err (format_es6 f) panics

  abbrev integer_first : String → Option ℤ → Result NumberError String
  integer_first s none = float_number s (floats.parse_float s)
  integer_first s (some i) =
      if is_safe i then ok (format_int i) else float_number s (floats.parse_float s)

  unfoldable pub encode_number : String → Result NumberError String
  unfolding format_es6 is_safe parse_int format_int
  encode_number s = if s == "" then err empty_number else integer_first s (parse_int s)
