-- ===== src/Canon/Utf16.antt =====
-- The order of object keys (pkg/canon/canon.go: utf16Units, lessUTF16).
pub mod Lexicographic
pub mod Ordering
use Prim.Native.Char.{code}
use intentproof_tools.Prelude.{
  ℕ, suc, ◌+◌, ◌-◌, ◌/◌, ◌%◌, Bool, true, false, not, List, [], ◌∷◌, ◌++◌, Char, String, length,
  ltb, ◌==◌, Eq-ℕ, if◌then◌else◌, ◌≡◌, refl,
}
use intentproof_tools.Prelude.Bytes.{bytes}

-- What `utf16Units` returns: the first unit, and the second one of a surrogate pair.
pub record Units : Type 0 where
  pub hi : ℕ
  pub lo : ℕ
  pub two : Bool

-- A rune is at most U+10FFFF, so that both halves fit ten bits.
unfoldable pub utf16_units : Char → Units
utf16_units c =
    let r = code c in
    if ltb r 0x10000 then record { hi = r; lo = 0; two = false } else record {
      hi = 0xd800 + (r - 0x10000) / 0x400;
      lo = 0xdc00 + (r - 0x10000) % 0x400;
      two = true;
    }

-- `aNext` and `bNext`, each one more than in the source, where a missing second unit is -1.
unfoldable pub next_unit : Units → ℕ
next_unit u = if u.two then suc u.lo else 0

-- The loop, with what is left of both strings. When one of them is at its end, the numbers of bytes
-- that are left decide.
unfoldable pub less_utf16 : String → String → Bool
unfolding utf16_units next_unit bytes
less_utf16 (String.◌∷◌ c s) (String.◌∷◌ d t) =
    let a = utf16_units c in
    let b = utf16_units d in
    let rest = less_utf16 s t in
    if not (a.hi == b.hi)
    then ltb a.hi b.hi
    else if not (next_unit a == next_unit b)
    then ltb (next_unit a) (next_unit b)
    else rest
less_utf16 String.[] (String.◌∷◌ d t) = ltb 0 (length (bytes (String.◌∷◌ d t)))
less_utf16 s String.[] = ltb (length (bytes s)) 0

-- UTF-16 as the Unicode standard has it: a rune below U+10000 is its number, and another one the pair of
-- surrogates that the twenty bits of its number above U+10000 make.
unfoldable pub surrogates : ℕ → List ℕ
surrogates bits = (0xd800 + bits / 0x400) ∷ (0xdc00 + bits % 0x400) ∷ []

unfoldable pub code_units : String → List ℕ
unfolding surrogates
code_units String.[] = []
code_units (String.◌∷◌ c s) =
    (if ltb (code c) 0x10000 then code c ∷ [] else surrogates (code c - 0x10000)) ++ code_units s

code_units_run : code_units "a～😀" ≡ 0x61 ∷ 0xff5e ∷ 0xd83d ∷ 0xde00 ∷ []
unfolding code_units
code_units_run = refl

-- The order of lists of units, item by item.
unfoldable pub units_lt : List ℕ → List ℕ → Bool
units_lt us [] = false
units_lt [] (v ∷ vs) = true
units_lt (u ∷ us) (v ∷ vs) = if u == v then units_lt us vs else ltb u v

less_utf16_runs : less_utf16 "😀" "～" ≡ true
unfolding less_utf16
less_utf16_runs = refl
