-- ===== src/Prelude/Sorting/Members.antt =====
-- Sorting keeps the members of a list.
use mathlib.Core.Path.{◌≡◌}
use mathlib.Core.Logic.{◌↔◌, ◌⊎◌, inl, inr}
use mathlib.Core.Bool.{Bool}
use mathlib.Core.List.{List, [], ◌∷◌}
use intentproof_tools.Prelude.Tests.{Bool-cases}
use intentproof_tools.Prelude.Lists.{In}
use intentproof_tools.Prelude.Sorting.{insert_sorted, sort}

module _ {A : Type 0} (lt : A → A → Bool) where
  pub In-insert_sorted :
      (x z : A) (ys : List A) → In z (insert_sorted lt x ys) ↔ ((z ≡ x) ⊎ In z ys)
  unfolding insert_sorted
  In-insert_sorted x z [] = (λ i. i, λ i. i)
  In-insert_sorted x z (y ∷ ys) = elim (Bool-cases (lt y x)) [
    | inr e ↦ rw e (λ i. i, λ i. i)
    | inl e ↦
        let (f, g) = In-insert_sorted x z ys in
        rw e (
          λ i. elim i [
            | inl p ↦ inr (inl p)
            | inr j ↦ elim (f j) [ inl q ↦ inl q | inr k ↦ inr (inr k) ]
          ],
          λ i. elim i [
            | inl p ↦ inr (g (inl p))
            | inr (inl q) ↦ inl q
            | inr (inr k) ↦ inr (g (inr k))
          ],
        )
  ]

  pub In-sort : (z : A) (xs : List A) → In z (sort lt xs) ↔ In z xs
  unfolding sort
  In-sort z [] = (λ i. i, λ i. i)
  In-sort z (x ∷ xs) =
      let (f, g) = In-insert_sorted x z (sort lt xs) in
      let (s, t) = In-sort z xs in
      (
        λ i. elim (f i) [ inl p ↦ inl p | inr j ↦ inr (s j) ],
        λ i. elim i [ inl p ↦ g (inl p) | inr j ↦ g (inr (t j)) ],
      )
