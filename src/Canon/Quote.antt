-- ===== src/Canon/Quote.antt =====
-- Strings in canonical form (pkg/canon/canon.go: encodeString), and the string grammar of RFC 8259 that
-- they are read by.
pub mod Escapes
pub mod ReadBack
use Prim.Native.Char.{char, code, IsLt}
use Prim.Native.Nat.{compare, Ordering}
use intentproof_tools.Prelude.{
  ℕ, zero, suc, ◌+◌, ◌-◌, ◌*◌, ◌/◌, ◌%◌, ◌≡◌, refl, Bool, ◌&&◌, Option, none, some, Char, String,
  ◌<>◌, ltb, leb, ◌==◌, Eq-ℕ, if◌then◌else◌,
}
use intentproof_tools.Prelude.Bytes.{hex_digit, hex_digit_value}

-- What the loop writes for one rune; `\u%04x` of a number below 0x20 is \u00 and two hex digits.
unfoldable pub escape : Char → String
unfolding hex_digit
escape c =
    let r = code c in
    if r == 0x22
    then "\\\""
    else if r == 0x5c
    then "\\\\"
    else if r == 0x8
    then "\\b"
    else if r == 0xc
    then "\\f"
    else if r == 0xa
    then "\\n"
    else if r == 0xd
    then "\\r"
    else if r == 0x9
    then "\\t"
    else if ltb r 0x20
    then String.◌∷◌ "\\" (
        String.◌∷◌ "u" (
          String.◌∷◌ "0" (
            String.◌∷◌ "0" (String.◌∷◌ (hex_digit (r / 16)) (String.◌∷◌ (hex_digit (r % 16)) "")))))
    else String.◌∷◌ c ""

-- The loop, up to the closing quote.
unfoldable pub escaped : String → String
unfolding escape
escaped String.[] = "\""
escaped (String.◌∷◌ c s) = escape c <> escaped s

unfoldable pub encode_string : String → String
unfolding escaped
encode_string s = String.◌∷◌ "\"" (escaped s)

-- A reader of JSON strings: where it stands behind a backslash, or how many hex digits it still wants
-- behind the next one, with the number so far.
pub data Mode : Type 0 where
  plain behind_backslash : Mode
  hex : ℕ → ℕ → Mode

pub data Step : Type 0 where
  closed failed : Step
  emit : Char → Step
  goto : Mode → Step

-- The character of a number, if it has one.
abbrev Both : Ordering → Ordering → Type 0
Both Ordering.lt o = IsLt o
Both _ _ = ⊥

abbrev Scalar : Ordering → Ordering → Ordering → Type 0
Scalar Ordering.lt _ _ = Unit
Scalar Ordering.eq o p = Both o p
Scalar Ordering.gt o p = Both o p

abbrev decide_both : (o p : Ordering) → Option (Both o p)
decide_both Ordering.lt Ordering.lt = some tt
decide_both _ _ = none

abbrev decide_scalar : (o p q : Ordering) → Option (Scalar o p q)
decide_scalar Ordering.lt _ _ = some tt
decide_scalar Ordering.eq p q = decide_both p q
decide_scalar Ordering.gt p q = decide_both p q

abbrev with_proof :
    (n : ℕ) → Option (Scalar (compare n 55296) (compare 57343 n) (compare n 1114112)) → Step
with_proof n (some p) = emit (char n p)
with_proof n none = failed

abbrev emit_code : ℕ → Step
emit_code n = with_proof n (decide_scalar (compare n 55296) (compare 57343 n) (compare n 1114112))

abbrev hex_step : ℕ → ℕ → Option ℕ → Step
hex_step wanted n none = failed
hex_step zero n (some d) = emit_code (n * 16 + d)
hex_step (suc wanted) n (some d) = goto (hex wanted (n * 16 + d))

unfoldable pub step : Mode → Char → Step
unfolding hex_digit_value
step plain c =
    let r = code c in
    if r == 0x22
    then closed
    else if r == 0x5c
    then goto behind_backslash
    else if ltb r 0x20
    then failed
    else emit c
step behind_backslash c =
    let r = code c in
    if r == 0x22
    then emit "\""
    else if r == 0x5c
    then emit "\\"
    else if r == 0x2f
    then emit "/"
    else if r == 0x62
    then emit_code 8
    else if r == 0x66
    then emit_code 12
    else if r == 0x6e
    then emit_code 10
    else if r == 0x72
    then emit_code 13
    else if r == 0x74
    then emit_code 9
    else if r == 0x75
    then goto (hex 3 0)
    else failed
step (hex wanted n) c = hex_step wanted n (hex_digit_value c)

abbrev pub prepend : Char → Option (String × String) → Option (String × String)
prepend c none = none
prepend c (some (s, rest)) = some (String.◌∷◌ c s, rest)

-- The text of a string literal up to its closing quote, and what stands behind.
unfoldable pub read_string : Mode → String → Option (String × String)
unfolding step
read_string m String.[] = none
read_string m (String.◌∷◌ c s) = elim (step m c) [
  | closed ↦ some (String.[], s)
  | failed ↦ none
  | emit d ↦ prepend d (read_string plain s)
  | goto n ↦ read_string n s
]

-- A string literal at the front of a text.
unfoldable pub read_literal : String → Option (String × String)
unfolding read_string
read_literal String.[] = none
read_literal (String.◌∷◌ c s) = if code c == 0x22 then read_string plain s else none

encode_runs : encode_string "a\"\n\u{1}\u{7f}é" ≡ "\"a\\\"\\n\\u0001\u{7f}é\""
unfolding encode_string
encode_runs = refl
