-- ===== src/Value/Number.antt =====
-- Conversions between Go's int, int64 and float64 (pkg/verifier/helpers.go, pkg/policy/compiler.go).
use intentproof_tools.Prelude.{
  ℕ, zero, suc, ◌*◌, ◌/◌, ◌%◌, ◌^◌, Bool, true, false, ◌&&◌, ◌||◌, Option, none, some, ltb, ◌==◌,
  Eq-ℕ, Eq-String, if◌then◌else◌,
}
use intentproof_tools.Prelude.Int.{ℤ, pos, negsuc, ltb_ℤ, pos_part, neg_part}
use intentproof_tools.Value.{Float64, Value, float64, int, int64, str, bool, null, eq_ℤ, eq_Bool}

-- How many units of 2 ^ -1074 make 1.
unfoldable pub unit : ℕ
unit = 2 ^ 1074

-- How often a number is halved before it fits 53 bits; a 64-bit number needs 11 rounds at most.
find_shift : ℕ → ℕ → ℕ → ℕ
find_shift zero s n = s
find_shift (suc fuel) s n =
    let rest = find_shift fuel (suc s) n in if ltb (n / 2 ^ s) (2 ^ 53) then s else rest

-- To the nearest multiple of 2 ^ s, an even one on a tie.
round_at : ℕ → ℕ → ℕ
round_at zero n = n
round_at (suc s) n =
    let q = n / 2 ^ suc s in
    let r = n % 2 ^ suc s in
    if ltb (2 ^ s) r || (r == 2 ^ s && (q % 2 == 1)) then suc q * 2 ^ suc s else q * 2 ^ suc s

unfoldable pub round53 : ℕ → ℕ
unfolding find_shift round_at
round53 n = if ltb n (2 ^ 53) then n else round_at (find_shift 11 0 n) n

-- -n
abbrev pub neg : ℕ → ℤ
neg zero = pos zero
neg (suc n) = negsuc n

-- `float64(i)`
unfoldable pub float_of_int : ℤ → Float64
float_of_int (pos n) = record { units = pos (round53 n * unit) }
float_of_int (negsuc n) = record { units = neg (round53 (suc n) * unit) }

abbrev pub min_int : ℤ
min_int = negsuc 9223372036854775807

-- `int(x)`: towards zero. Out of range Go leaves the result open, and this is what amd64 gives.
unfoldable pub int_of_float : Float64 → ℤ
int_of_float x =
    let n = pos_part x.units / unit in
    let m = neg_part x.units / unit in
    if ltb 9223372036854775807 n || ltb 9223372036854775808 m
    then min_int
    else elim x.units [ pos _ ↦ pos n | negsuc _ ↦ neg m ]

abbrev pub eq_float : Float64 → Float64 → Bool
eq_float x y = eq_ℤ x.units y.units

abbrev pub lt_float : Float64 → Float64 → Bool
lt_float x y = ltb_ℤ x.units y.units

-- `toFloat64`, and `numericFromAny` of the compiler
unfoldable pub to_float64 : Value → Option Float64
to_float64 (float64 x) = some x
to_float64 (int i) = some (float_of_int i)
to_float64 (int64 i) = some (float_of_int i)
to_float64 _ = none

-- `intFromInterface`
unfoldable pub int_from_interface : Value → ℤ
int_from_interface (int i) = i
int_from_interface (int64 i) = i
int_from_interface (float64 x) = int_of_float x
int_from_interface _ = pos 0

pub data ThresholdError : Type 0 where
  is_nil not_positive fractional not_numeric : ThresholdError

pub data Checked : Type 0 where
  ok : ℤ → Checked
  err : ThresholdError → Checked

-- `validateAgreeAtLeast`
unfoldable pub validate_agree_at_least : Value → Checked
validate_agree_at_least null = err is_nil
validate_agree_at_least (int i) = if ltb_ℤ (pos 0) i then ok i else err not_positive
validate_agree_at_least (int64 i) = if ltb_ℤ (pos 0) i then ok i else err not_positive
validate_agree_at_least (float64 x) =
    if ltb_ℤ (pos 0) x.units
    then if eq_float x (float_of_int (int_of_float x)) then ok (int_of_float x) else err fractional
    else err not_positive
validate_agree_at_least _ = err not_numeric

-- `valuesEqual`
unfoldable pub values_equal : Value → Value → Bool
values_equal (str a) (str b) = a == b
values_equal (float64 a) (float64 b) = eq_float a b
values_equal (float64 a) (int b) = eq_float a (float_of_int b)
values_equal (float64 a) (int64 b) = eq_float a (float_of_int b)
values_equal (int a) (int b) = eq_ℤ a b
values_equal (int a) (float64 b) = eq_float (float_of_int a) b
values_equal (int a) (int64 b) = eq_ℤ a b
values_equal (int64 a) (int64 b) = eq_ℤ a b
values_equal (int64 a) (float64 b) = eq_float (float_of_int a) b
values_equal (int64 a) (int b) = eq_ℤ a b
values_equal (bool a) (bool b) = eq_Bool a b
values_equal null null = true
values_equal _ _ = false
