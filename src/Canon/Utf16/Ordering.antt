-- ===== src/Canon/Utf16/Ordering.antt =====
-- lessUTF16 is a strict total order of texts.
use Prim.Native.Char.{Char, code}
use mathlib.Core.Path.{ap₂}
use text.Mathlib.TextEquality.{Char-path}
use intentproof_tools.Prelude.{
  ℕ, ◌≡◌, refl, Bool, true, false, not, String, ltb, ◌==◌, Eq-ℕ, if◌then◌else◌, arith,
}
use intentproof_tools.Canon.Utf16.{Units, utf16_units, next_unit, less_utf16}
use intentproof_tools.Canon.Utf16.Lexicographic.{bytes-nonempty}

-- The units of a rune determine it.
units_injective :
    (c d : Char)
    → (utf16_units c).hi ≡ (utf16_units d).hi
    → next_unit (utf16_units c) ≡ next_unit (utf16_units d)
    → code c ≡ code d
unfolding utf16_units next_unit
units_injective c d h k = ground arith

pub less_utf16_asym : (s t : String) → less_utf16 s t ≡ true → less_utf16 t s ≡ false
unfolding less_utf16
less_utf16_asym String.[] String.[] h = refl
less_utf16_asym String.[] (String.◌∷◌ d t) h = ground (arith, bytes-nonempty d t)
less_utf16_asym (String.◌∷◌ c s) String.[] h = ground (arith, bytes-nonempty c s)
less_utf16_asym (String.◌∷◌ c s) (String.◌∷◌ d t) h = ground (arith, less_utf16_asym s t)

none_below : (n : ℕ) → ¬ (ltb n 0 ≡ true)
none_below n h = ground arith

-- One round of the loop, with what the later rounds give.
abbrev round : Units → Units → Bool → Bool
round a b rest =
    if not (a.hi == b.hi)
    then ltb a.hi b.hi
    else if not (next_unit a == next_unit b)
    then ltb (next_unit a) (next_unit b)
    else rest

round_trans :
    (a b c : Units) {p q r : Bool}
    → round a b p ≡ true
    → round b c q ≡ true
    → (p ≡ true → q ≡ true → r ≡ true)
    → round a c r ≡ true
round_trans a b c e f g = ground arith

pub less_utf16_trans :
    (s t u : String) → less_utf16 s t ≡ true → less_utf16 t u ≡ true → less_utf16 s u ≡ true
unfolding less_utf16
less_utf16_trans s String.[] String.[] h k = ground arith
less_utf16_trans s (String.◌∷◌ d t) String.[] h k = ground (arith, bytes-nonempty d t)
less_utf16_trans String.[] t (String.◌∷◌ e u) h k = bytes-nonempty e u
less_utf16_trans (String.◌∷◌ c s) String.[] (String.◌∷◌ e u) h k = absurd (none_below _ h)
less_utf16_trans (String.◌∷◌ c s) (String.◌∷◌ d t) (String.◌∷◌ e u) h k =
    round_trans (utf16_units c) (utf16_units d) (utf16_units e) h k (less_utf16_trans s t u)

pub less_utf16_total : (s t : String) → less_utf16 s t ≡ false → less_utf16 t s ≡ false → s ≡ t
unfolding less_utf16
less_utf16_total String.[] String.[] h k = refl
less_utf16_total String.[] (String.◌∷◌ d t) h k = ground (arith, bytes-nonempty d t)
less_utf16_total (String.◌∷◌ c s) String.[] h k = ground (arith, bytes-nonempty c s)
less_utf16_total (String.◌∷◌ c s) (String.◌∷◌ d t) h k =
    ap₂ String.◌∷◌ (Char-path c d (units_injective c d (ground arith) (ground arith)))
      (less_utf16_total s t (ground arith) (ground arith))
