-- ===== src/Prelude/Sorting/Order.antt =====
-- Go's order of strings is a strict total order, and a sorted list does not depend on the order in
-- which its items came.
use Prim.Native.Char.{code}
use Prim.Native.String.{String}
use mathlib.Core.Path.{◌≡◌, refl, sym, ap₂, ◌∙◌}
use mathlib.Core.Logic.{inl, inr, ∥∥₁_elim}
use mathlib.Core.Bool.{true, false, false≢true}
use mathlib.Core.List.{List, [], ◌∷◌, Perm, Permᴰ}
use mathlib.Core.HLevel.{hedberg}
use native.Mathlib.Omega.{arith}
use text.Mathlib.TextEquality.{Char-path, eq_iff}
use intentproof_tools.Prelude.Tests.{◌==◌, Eq-ℕ, Eq-String, Bool-cases}
use intentproof_tools.Prelude.Sorting.{str_lt, insert_sorted, sort, sort_strings}

pub str_lt_asym : (s t : String) → str_lt s t ≡ true → str_lt t s ≡ false
unfolding str_lt
str_lt_asym s String.[] h = cc
str_lt_asym String.[] (String.◌∷◌ d t) h = refl
str_lt_asym (String.◌∷◌ c s) (String.◌∷◌ d t) h = ground (arith, str_lt_asym s t)

pub str_lt_trans : (s t u : String) → str_lt s t ≡ true → str_lt t u ≡ true → str_lt s u ≡ true
unfolding str_lt
str_lt_trans s t String.[] h k = cc
str_lt_trans s String.[] (String.◌∷◌ e u) h k = cc
str_lt_trans String.[] (String.◌∷◌ d t) (String.◌∷◌ e u) h k = refl
str_lt_trans (String.◌∷◌ c s) (String.◌∷◌ d t) (String.◌∷◌ e u) h k =
    ground (arith, str_lt_trans s t u)

pub str_lt_total : (s t : String) → str_lt s t ≡ false → str_lt t s ≡ false → s ≡ t
unfolding str_lt
str_lt_total String.[] String.[] h k = refl
str_lt_total String.[] (String.◌∷◌ d t) h k = cc
str_lt_total (String.◌∷◌ c s) String.[] h k = cc
str_lt_total (String.◌∷◌ c s) (String.◌∷◌ d t) h k =
    let e : code c ≡ code d = ground arith in
    ap₂ String.◌∷◌ (Char-path c d e) (str_lt_total s t (ground arith) (ground arith))

-- Two items may be put into a list in either order.
insert_sorted_comm :
    (x y : String) (l : List String)
    → insert_sorted str_lt x (insert_sorted str_lt y l)
      ≡ insert_sorted str_lt y (insert_sorted str_lt x l)
unfolding insert_sorted
insert_sorted_comm x y [] = ground (arith, str_lt_asym x y, str_lt_asym y x, str_lt_total x y)
insert_sorted_comm x y (z ∷ l) = ground (
  arith,
  str_lt_asym x y,
  str_lt_asym y x,
  str_lt_total x y,
  str_lt_asym z x,
  str_lt_asym z y,
  str_lt_trans z x y,
  str_lt_trans z y x,
  insert_sorted_comm x y l,
)

sort-permᴰ : {xs ys : List String} → Permᴰ xs ys → sort str_lt xs ≡ sort str_lt ys
unfolding sort
sort-permᴰ Permᴰ.nil = refl
sort-permᴰ (Permᴰ.cons p q) = ap₂ (insert_sorted str_lt) p (sort-permᴰ q)
sort-permᴰ (Permᴰ.swap {a = a} {b = b} {l = l} p q) =
    insert_sorted_comm a b (sort str_lt l)
    ∙ ap₂ (λ x y. insert_sorted str_lt x (insert_sorted str_lt y (sort str_lt l))) q p
sort-permᴰ (Permᴰ.trans p q) = sort-permᴰ p ∙ sort-permᴰ q

String-discrete : Discrete String
String-discrete s t = elim (Bool-cases (s == t)) [
  | inl e ↦ yes ((eq_iff s t).0 e)
  | inr e ↦ no (λ p. false≢true (sym e ∙ (eq_iff s t).1 p))
]

String-set : IsSet String
String-set = hedberg String-discrete

List-String-set : IsSet (List String)
List-String-set = hlevel String-set

-- Lists that are permutations of one another are sorted into one list.
pub sort_strings-perm : (xs ys : List String) → Perm xs ys → sort_strings xs ≡ sort_strings ys
unfolding sort_strings
sort_strings-perm xs ys p = ∥∥₁_elim p (List-String-set _ _) sort-permᴰ
