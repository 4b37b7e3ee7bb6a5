-- ===== src/Prelude/Sorting.antt =====
-- `sort.Strings`, as an insertion sort over Go's order of strings (bytes, which is the order of code
-- points). The keys of a map are all different, so that any sorting algorithm gives this list.
pub mod Members
pub mod Order
pub mod Ascending
pub mod Commute
use Prim.Native.Char.{code}
use Prim.Native.String.{String}
use mathlib.Core.Bool.{Bool, true, false, ◌&&◌, ◌||◌}
use mathlib.Core.List.{List, [], ◌∷◌}
use intentproof_tools.Prelude.Tests.{ltb, ◌==◌, Eq-ℕ, if◌then◌else◌}

-- `s < t`
unfoldable pub str_lt : String → String → Bool
str_lt s String.[] = false
str_lt String.[] (String.◌∷◌ d t) = true
str_lt (String.◌∷◌ c s) (String.◌∷◌ d t) = ltb (code c) (code d) || (code c == code d && str_lt s t)

unfoldable pub insert_sorted {ℓ} : {A : Type ℓ} → (A → A → Bool) → A → List A → List A
insert_sorted lt x [] = x ∷ []
insert_sorted lt x (y ∷ ys) = if lt y x then y ∷ insert_sorted lt x ys else x ∷ y ∷ ys

unfoldable pub sort {ℓ} : {A : Type ℓ} → (A → A → Bool) → List A → List A
unfolding insert_sorted
sort lt [] = []
sort lt (x ∷ xs) = insert_sorted lt x (sort lt xs)

unfoldable pub sort_strings : List String → List String
unfolding sort str_lt
sort_strings = sort str_lt
