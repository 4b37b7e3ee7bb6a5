-- ===== src/Canon/Utf16/Lexicographic.antt =====
-- The loop of lessUTF16 compares the code units.
use Prim.Native.Char.{Char, char, code}
use intentproof_tools.Prelude.{◌<◌, ◌≡◌, refl, true, String, ◌⊎◌, length, ltb, Eq-ℕ, arith}
use intentproof_tools.Prelude.Bytes.{bytes}
use intentproof_tools.Canon.Utf16.{
  utf16_units, next_unit, less_utf16, surrogates, code_units, units_lt,
}

-- A rune is not a surrogate and at most U+10FFFF.
scalar : (c : Char) → (code c < 0xd800) ⊎ ((0xdfff < code c) × (code c < 0x110000))
scalar (char n p) = ground arith

pub bytes-nonempty : (c : Char) (s : String) → ltb 0 (length (bytes (String.◌∷◌ c s))) ≡ true
unfolding bytes
bytes-nonempty c s = ground arith

-- lessUTF16 compares two texts as RFC 8785 demands, by their UTF-16 code units.
pub less_utf16_lem : (s t : String) → less_utf16 s t ≡ units_lt (code_units s) (code_units t)
unfolding less_utf16 code_units units_lt utf16_units next_unit surrogates
less_utf16_lem String.[] String.[] = refl
less_utf16_lem String.[] (String.◌∷◌ d t) = ground (arith, bytes-nonempty d t)
less_utf16_lem (String.◌∷◌ c s) String.[] = ground (arith, bytes-nonempty c s)
less_utf16_lem (String.◌∷◌ c s) (String.◌∷◌ d t) =
    ground (arith, scalar c, scalar d, less_utf16_lem s t)
