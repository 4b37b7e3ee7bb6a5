-- ===== src/Prelude/Text.antt =====
-- Texts: Go's `strings.TrimSpace`, `strings.ToLower` and the order of strings.
use Prim.Native.Nat.{ℕ, zero, suc, ◌-◌}
use Prim.Native.Char.{Char, code}
use Prim.Native.String.{String}
use mathlib.Core.Path.{◌≡◌, refl, ap}
use mathlib.Core.Option.{Option, none, some}
use mathlib.Core.Bool.{Bool, true, false, ◌&&◌, ◌||◌}
use intentproof_tools.Prelude.Tests.{leb, ◌==◌, Eq-ℕ, Eq-String, if◌then◌else◌}

-- `unicode.IsSpace`.
pub is_space : Char → Bool
is_space c =
    let n = code c in
    (leb 9 n && leb n 13)
    || n == 32
    || n == 0x85
    || n == 0xa0
    || n == 0x1680
    || (leb 0x2000 n && leb n 0x200a)
    || n == 0x2028
    || n == 0x2029
    || n == 0x202f
    || n == 0x205f
    || n == 0x3000

trim_left : String → String
trim_left String.[] = String.[]
trim_left (String.◌∷◌ c s) = if is_space c then trim_left s else String.◌∷◌ c s

-- Drops the white space at the end: a character stays if it is no space or something stays behind it.
abbrev cons_trimmed : Char → String → String
cons_trimmed c String.[] = if is_space c then String.[] else String.◌∷◌ c String.[]
cons_trimmed c s = String.◌∷◌ c s

trim_right : String → String
trim_right String.[] = String.[]
trim_right (String.◌∷◌ c s) = cons_trimmed c (trim_right s)

unfoldable pub trim_space : String → String
unfolding trim_left trim_right is_space
trim_space s = trim_right (trim_left s)

trim_runs : trim_space " a b\t " ≡ "a b"
unfolding trim_space
trim_runs = refl

-- The n-th character of a text.
letter : Char → ℕ → String → Char
letter default n String.[] = default
letter default zero (String.◌∷◌ c s) = c
letter default (suc n) (String.◌∷◌ c s) = letter default n s

-- `unicode.ToLower` at the letters whose lower case is an ASCII letter: A to Z, U+0130 and U+212A. The
-- code compares what it lowers only with ASCII texts, and a rune of another kind has no ASCII lower
-- case, so that it is left as it is here.
lower_rune : Char → Char
unfolding letter
lower_rune c =
    let n = code c in
    if leb 65 n && leb n 90
    then letter c (n - 65) "abcdefghijklmnopqrstuvwxyz"
    else if n == 0x130
    then letter c 0 "i"
    else if n == 0x212a
    then letter c 0 "k"
    else c

unfoldable pub to_lower : String → String
unfolding lower_rune
to_lower String.[] = String.[]
to_lower (String.◌∷◌ c s) = String.◌∷◌ (lower_rune c) (to_lower s)

-- Go's `+` on strings.
infixr 60 ◌<>◌
abbrev pub ◌<>◌ : String → String → String
String.[] <> t = t
String.◌∷◌ c s <> t = String.◌∷◌ c (s <> t)

pub append-assoc_text : (s t u : String) → (s <> t) <> u ≡ s <> (t <> u)
append-assoc_text String.[] t u = refl
append-assoc_text (String.◌∷◌ c s) t u = ap (String.◌∷◌ c) (append-assoc_text s t u)

pub append-empty_text : (s : String) → s <> "" ≡ s
append-empty_text String.[] = refl
append-empty_text (String.◌∷◌ c s) = ap (String.◌∷◌ c) (append-empty_text s)

abbrev pub text_len : String → ℕ
text_len String.[] = 0
text_len (String.◌∷◌ c s) = suc (text_len s)

-- `s[:n]` and `s[n:]`, where every rune before the place is a byte.
abbrev pub take_text : ℕ → String → String
take_text zero s = ""
take_text (suc n) String.[] = ""
take_text (suc n) (String.◌∷◌ c s) = String.◌∷◌ c (take_text n s)

abbrev pub drop_text : ℕ → String → String
drop_text zero s = s
drop_text (suc n) String.[] = ""
drop_text (suc n) (String.◌∷◌ c s) = drop_text n s

-- What stands before and behind the first place of a rune, which `strings.IndexByte` finds.
abbrev keep_before : Char → Option (String × String) → Option (String × String)
keep_before c none = none
keep_before c (some (before, behind)) = some (String.◌∷◌ c before, behind)

unfoldable pub cut : Char → String → Option (String × String)
cut d String.[] = none
cut d (String.◌∷◌ c s) =
    let rest = cut d s in if code c == code d then some ("", s) else keep_before c rest

-- `strings.Repeat` of one rune
abbrev pub repeat_text : Char → ℕ → String
repeat_text c zero = ""
repeat_text c (suc n) = String.◌∷◌ c (repeat_text c n)

-- `strings.HasPrefix`
unfoldable pub has_prefix : String → String → Bool
has_prefix String.[] s = true
has_prefix (String.◌∷◌ c p) String.[] = false
has_prefix (String.◌∷◌ c p) (String.◌∷◌ d s) = code c == code d && has_prefix p s

lower_runs : to_lower "ReVOKed" ≡ "revoked"
unfolding to_lower
lower_runs = refl

-- `strings.TrimPrefix`
abbrev without_prefix : Bool → String → String → String
without_prefix true p s = drop_text (text_len p) s
without_prefix false p s = s

unfoldable pub trim_prefix : String → String → String
unfolding has_prefix
trim_prefix s p = without_prefix (has_prefix p s) p s

-- `strings.HasSuffix`: the text itself or one of its tails is the suffix.
unfoldable pub has_suffix : String → String → Bool
has_suffix String.[] p = p == ""
has_suffix (String.◌∷◌ c s) p = String.◌∷◌ c s == p || has_suffix s p

pub has_suffix-append : (s t p : String) → has_suffix t p ≡ true → has_suffix (s <> t) p ≡ true
unfolding has_suffix
has_suffix-append String.[] t p h = h
has_suffix-append (String.◌∷◌ c s) t p h = let e = has_suffix-append s t p h in rw e (or_true _)
  where
    or_true : (b : Bool) → (b || true) ≡ true
    or_true true = refl
    or_true false = refl
