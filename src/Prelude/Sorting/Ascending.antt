-- ===== src/Prelude/Sorting/Ascending.antt =====
-- A list of different texts is sorted into the one ascending list of its members.
use mathlib.Core.Path.{◌≡◌, refl, sym, ap₂, subst, ◌∙◌}
use mathlib.Core.Logic.{◌≢◌, ◌↔◌, inl, inr}
use mathlib.Core.Bool.{true, false, false≢true}
use mathlib.Core.List.{List, [], ◌∷◌}
use Prim.Native.String.{String}
use intentproof_tools.Prelude.Tests.{Bool-cases}
use intentproof_tools.Prelude.Lists.{In, Distinct}
use intentproof_tools.Prelude.Sorting.{str_lt, insert_sorted, sort, sort_strings}
use intentproof_tools.Prelude.Sorting.Members.{In-insert_sorted, In-sort}
use intentproof_tools.Prelude.Sorting.Order.{str_lt_asym, str_lt_trans, str_lt_total}

-- Each item is less than all behind it.
abbrev pub Ascending : List String → Type 0
Ascending [] = Unit
Ascending (x ∷ xs) = ((y : String) → In y xs → str_lt x y ≡ true) × Ascending xs

lt_of_ne : (x y : String) → x ≢ y → str_lt y x ≡ false → str_lt x y ≡ true
lt_of_ne x y n h = elim (Bool-cases (str_lt x y)) [
  | inl e ↦ e
  | inr e ↦ absurd (n (str_lt_total x y e h))
]

not_less : (x : String) → ¬ (str_lt x x ≡ true)
not_less x h = false≢true (sym (str_lt_asym x x h) ∙ h)

insert_sorted-Ascending :
    (x : String) (ys : List String)
    → ¬ In x ys
    → Ascending ys
    → Ascending (insert_sorted str_lt x ys)
unfolding insert_sorted
insert_sorted-Ascending x [] n a = ((λ y i. elim i [ ]), tt)
insert_sorted-Ascending x (y ∷ ys) n (b, a) = elim (Bool-cases (str_lt y x)) [
  | inl e ↦ rw e (
    (λ z i. elim ((In-insert_sorted str_lt x z ys).0 i) [
      | inl q ↦ subst (λ w. str_lt y w ≡ true) (sym q) e
      | inr j ↦ b z j
    ]),
    insert_sorted-Ascending x ys (λ i. n (inr i)) a,
  )
  | inr e ↦
      let l = lt_of_ne x y (λ q. n (inl q)) e in
      rw e (
        (λ z i. elim i [
          | inl q ↦ subst (λ w. str_lt x w ≡ true) (sym q) l
          | inr j ↦ str_lt_trans x y z l (b z j)
        ]),
        (b, a),
      )
]

pub sort_strings-Ascending : (xs : List String) → Distinct xs → Ascending (sort_strings xs)
unfolding sort_strings sort
sort_strings-Ascending [] d = tt
sort_strings-Ascending (x ∷ xs) (n, d) =
    insert_sorted-Ascending x (sort str_lt xs) (λ i. n ((In-sort str_lt x xs).0 i))
      (sort_strings-Ascending xs d)

-- The first items of two ascending lists with the same members.
same_head :
    (x y : String) (xs ys : List String)
    → ((z : String) → In z xs → str_lt x z ≡ true)
    → ((z : String) → In z ys → str_lt y z ≡ true)
    → In x (y ∷ ys)
    → In y (x ∷ xs)
    → x ≡ y
same_head x y xs ys a b (inl q) j = q
same_head x y xs ys a b (inr i) (inl q) = sym q
same_head x y xs ys a b (inr i) (inr j) =
    absurd (false≢true (sym (str_lt_asym x y (a y j)) ∙ b x i))

drop_head :
    (x y z : String) (xs ys : List String) → x ≡ y → str_lt x z ≡ true → In z (y ∷ ys) → In z ys
drop_head x y z xs ys e l (inl q) =
    absurd (not_less x (subst (λ w. str_lt x w ≡ true) (q ∙ sym e) l))
drop_head x y z xs ys e l (inr i) = i

pub Ascending-unique :
    (xs ys : List String)
    → Ascending xs
    → Ascending ys
    → ((z : String) → In z xs ↔ In z ys)
    → xs ≡ ys
Ascending-unique [] [] a b h = refl
Ascending-unique [] (y ∷ ys) a b h = absurd ((h y).1 (inl refl))
Ascending-unique (x ∷ xs) [] a b h = absurd ((h x).0 (inl refl))
Ascending-unique (x ∷ xs) (y ∷ ys) (l, a) (m, b) h =
    let e = same_head x y xs ys l m ((h x).0 (inl refl)) ((h y).1 (inl refl)) in
    ap₂ ◌∷◌ e (
      Ascending-unique xs ys a b (λ z. (
        (λ i. drop_head x y z xs ys e (l z i) ((h z).0 (inr i))),
        (λ i. drop_head y x z ys xs (sym e) (m z i) ((h z).1 (inr i))),
      )))
