-- ===== src/Prelude/Sorting/Commute.antt =====
-- An insertion sort by any strict order: two items of which one is less may be inserted in either order.
use mathlib.Core.Path.{◌≡◌}
use mathlib.Core.Logic.{◌⊎◌}
use mathlib.Core.Bool.{Bool, true, false}
use mathlib.Core.List.{List, [], ◌∷◌}
use native.Mathlib.Omega.{arith}
use intentproof_tools.Prelude.Sorting.{insert_sorted}

module _ {A : Type 0} (lt : A → A → Bool) (asym : (x y : A) → lt x y ≡ true → lt y x ≡ false)
    (trans : (x y z : A) → lt x y ≡ true → lt y z ≡ true → lt x z ≡ true) where
  pub insert_sorted_swap :
      (x y : A) (l : List A)
      → (lt x y ≡ true) ⊎ (lt y x ≡ true)
      → insert_sorted lt x (insert_sorted lt y l) ≡ insert_sorted lt y (insert_sorted lt x l)
  unfolding insert_sorted
  insert_sorted_swap x y [] h = ground (arith, asym x y, asym y x)
  insert_sorted_swap x y (z ∷ l) h = ground (
    arith,
    asym x y,
    asym y x,
    asym z x,
    asym z y,
    trans z x y,
    trans z y x,
    insert_sorted_swap x y l h,
  )
