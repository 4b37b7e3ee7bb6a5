-- ===== src/Prelude/Bytes/Injective.antt =====
-- The bytes of a text determine it.
use Prim.Native.Char.{code}
use Prim.Native.Nat.{ℕ}
use Prim.Native.String.{String}
use mathlib.Core.Path.{◌≡◌, refl, sym}
use mathlib.Core.List.{List, [], ◌++◌}
use text.Mathlib.TextEquality.{Char-path}
use native.Mathlib.Omega.{arith}
use intentproof_tools.Prelude.Bytes.{utf8, bytes}

-- No encoding of a rune is a prefix of another's.
utf8-split : (m n : ℕ) (xs ys : List ℕ) → utf8 m ++ xs ≡ utf8 n ++ ys → (m ≡ n) × (xs ≡ ys)
unfolding utf8
utf8-split m n xs ys h = ground arith

utf8-nonempty : (n : ℕ) (xs : List ℕ) → ◌≡◌ {A = List ℕ} [] (utf8 n ++ xs) → ⊥
unfolding utf8
utf8-nonempty n xs h = ground arith

pub bytes-injective : (s t : String) → bytes s ≡ bytes t → s ≡ t
unfolding bytes
bytes-injective String.[] String.[] h = refl
bytes-injective String.[] (String.◌∷◌ d t) h = absurd (utf8-nonempty (code d) (bytes t) h)
bytes-injective (String.◌∷◌ c s) String.[] h = absurd (utf8-nonempty (code c) (bytes s) (sym h))
bytes-injective (String.◌∷◌ c s) (String.◌∷◌ d t) h =
    let (e, f) = utf8-split (code c) (code d) (bytes s) (bytes t) h in
    let p : c ≡ d = Char-path c d e in let q : s ≡ t = bytes-injective s t f in cc
