-- ===== src/Prelude/Decimal.antt =====
-- Decimal numerals: `strconv.Itoa`, `strconv.FormatInt`, `strconv.ParseInt` and `strconv.Atoi`.
pub mod Numerals
use Prim.Native.Char.{Char, code}
use Prim.Native.Nat.{ℕ, zero, suc, ◌+◌, ◌-◌, ◌*◌, ◌/◌, ◌%◌}
use Prim.Native.String.{String}
use mathlib.Core.Path.{◌≡◌, refl}
use mathlib.Core.Bool.{Bool, true, false, ◌&&◌, not}
use mathlib.Core.Option.{Option, none, some}
use intentproof_tools.Prelude.Tests.{ltb, leb, ◌==◌, Eq-ℕ, if◌then◌else◌}
use intentproof_tools.Prelude.Bytes.{hex_digit}
use intentproof_tools.Prelude.Int.{ℤ, pos, negsuc}

-- The digits of a number before those that are there. Twenty rounds are enough for 64 bits.
unfoldable pub digits_before : ℕ → ℕ → String → String
unfolding hex_digit
digits_before zero n more = more
digits_before (suc fuel) n more =
    let here = String.◌∷◌ (hex_digit (n % 10)) more in
    let rest = digits_before fuel (n / 10) here in if ltb n 10 then here else rest

unfoldable pub format_nat : ℕ → String
unfolding digits_before
format_nat n = digits_before 20 n ""

-- `strconv.FormatInt(i, 10)`
unfoldable pub format_int : ℤ → String
unfolding format_nat
format_int (pos n) = format_nat n
format_int (negsuc n) = String.◌∷◌ "-" (format_nat (suc n))

-- `'0' <= c && c <= '9'`
unfoldable pub is_digit : Char → Bool
is_digit c = leb 48 (code c) && leb (code c) 57

-- The number of a text of digits behind digits of this number.
unfoldable pub digits_value : ℕ → String → Option ℕ
unfolding is_digit
digits_value n String.[] = some n
digits_value n (String.◌∷◌ c s) =
    let rest = digits_value (n * 10 + (code c - 48)) s in if is_digit c then rest else none

unfoldable pub parse_nat : String → Option ℕ
unfolding digits_value
parse_nat String.[] = none
parse_nat s = digits_value 0 s

-- The sign is read off, and the number must fit 64 bits.
abbrev positive : Option ℕ → Option ℤ
positive (some n) = if ltb n 9223372036854775808 then some (pos n) else none
positive none = none

abbrev negative : Option ℕ → Option ℤ
negative (some zero) = some (pos 0)
negative (some (suc n)) = if ltb n 9223372036854775808 then some (negsuc n) else none
negative none = none

-- `strconv.ParseInt(s, 10, 64)`, `strconv.Atoi(s)`
unfoldable pub parse_int : String → Option ℤ
unfolding parse_nat
parse_int String.[] = none
parse_int (String.◌∷◌ c s) =
    if code c == 0x2d
    then negative (parse_nat s)
    else if code c == 0x2b
    then positive (parse_nat s)
    else positive (parse_nat (String.◌∷◌ c s))

format_runs : format_int (negsuc 1204) ≡ "-1205"
unfolding format_int
format_runs = refl

parse_runs : parse_int "-1205" ≡ some (negsuc 1204)
unfolding parse_int
parse_runs = refl
