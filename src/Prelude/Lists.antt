-- ===== src/Prelude/Lists.antt =====
-- Lists measured by native numbers, filters by Boolean tests, predicates on lists.
use Prim.Native.Nat.{ℕ, zero, suc, ◌+◌, ◌-◌, ◌≤◌}
use mathlib.Core.Path.{◌≡◌, refl, ap, ◌∙◌}
use mathlib.Core.Logic.{◌⊎◌, ◌↔◌, inl, inr}
use mathlib.Core.Bool.{Bool, true, false, false≢true, ◌&&◌, ◌||◌}
use mathlib.Core.List.{List, [], ◌∷◌, ◌++◌, map}
use native.Mathlib.Omega.{arith}
use intentproof_tools.Prelude.Tests.{ltb, if◌then◌else◌, Bool-cases}

module _ {ℓ} {A : Type ℓ} where
  abbrev pub length : List A → ℕ
  length [] = 0
  length (x ∷ xs) = suc (length xs)

  abbrev pub is_empty : List A → Bool
  is_empty [] = true
  is_empty (x ∷ xs) = false

  -- A loop that keeps the items that pass a test, in order.
  abbrev pub keep : (A → Bool) → List A → List A
  keep p [] = []
  keep p (x ∷ xs) = if p x then x ∷ keep p xs else keep p xs

  abbrev pub any : (A → Bool) → List A → Bool
  any p [] = false
  any p (x ∷ xs) = p x || any p xs

  abbrev pub all : (A → Bool) → List A → Bool
  all p [] = true
  all p (x ∷ xs) = p x && all p xs

  -- How many items fail a test.
  abbrev pub count_if : (A → Bool) → List A → ℕ
  count_if p [] = 0
  count_if p (x ∷ xs) = if p x then suc (count_if p xs) else count_if p xs

  abbrev pub All {κ} : (A → Type κ) → List A → Type κ
  All P [] = Unit
  All P (x ∷ xs) = P x × All P xs

-- Membership that keeps the position.
abbrev pub In : {A : Type 0} → A → List A → Type 0
In a [] = ⊥
In a (x ∷ xs) = (a ≡ x) ⊎ In a xs

-- No item stands twice.
abbrev pub Distinct : {A : Type 0} → List A → Type 0
Distinct [] = Unit
Distinct (x ∷ xs) = (¬ In x xs) × Distinct xs

pub length-append : {A : Type 0} (xs ys : List A) → length (xs ++ ys) ≡ length xs + length ys
length-append [] ys = omega arith
length-append (x ∷ xs) ys = omega (arith, length-append xs ys)

pub length-map : {A B : Type 0} (f : A → B) (xs : List A) → length (map f xs) ≡ length xs
length-map f [] = refl
length-map f (x ∷ xs) = ap suc (length-map f xs)

module _ {A : Type 0} where
  abbrev pub take : ℕ → List A → List A
  take zero xs = []
  take (suc n) [] = []
  take (suc n) (x ∷ xs) = x ∷ take n xs

  abbrev pub drop : ℕ → List A → List A
  drop zero xs = xs
  drop (suc n) [] = []
  drop (suc n) (x ∷ xs) = drop n xs

  pub take-append-drop : (n : ℕ) (xs : List A) → take n xs ++ drop n xs ≡ xs
  take-append-drop zero xs = refl
  take-append-drop (suc n) [] = refl
  take-append-drop (suc n) (x ∷ xs) = ap (λ t. x ∷ t) (take-append-drop n xs)

  pub length-take : (n : ℕ) (xs : List A) → n ≤ length xs → length (take n xs) ≡ n
  length-take zero xs h = refl
  length-take (suc n) [] h = elim h [ ]
  length-take (suc n) (x ∷ xs) h = ap suc (length-take n xs (omega arith))

  pub length-drop : (n : ℕ) (xs : List A) → length (drop n xs) ≡ length xs - n
  length-drop zero xs = omega arith
  length-drop (suc n) [] = omega arith
  length-drop (suc n) (x ∷ xs) = omega (arith, length-drop n xs)

module _ {A : Type 0} (p : A → Bool) where
  pub any-true : (xs : List A) → any p xs ≡ true → (x : A) × In x xs × (p x ≡ true)
  any-true [] h = absurd (false≢true h)
  any-true (x ∷ xs) h = elim (Bool-cases (p x)) [
    | inl e ↦ (x, inl refl, e)
    | inr e ↦ let (y, i, f) = any-true xs (rw e at h) in (y, inr i, f)
  ]

  pub any-of-In : (xs : List A) (x : A) → In x xs → p x ≡ true → any p xs ≡ true
  any-of-In [] x i e = elim i [ ]
  any-of-In (y ∷ xs) x (inl q) e = rw (← ap p q, e)
  any-of-In (y ∷ xs) x (inr i) e = ground (arith, any-of-In xs x i e)

  pub any-false : (xs : List A) (x : A) → any p xs ≡ false → In x xs → p x ≡ false
  any-false [] x e i = elim i [ ]
  any-false (y ∷ xs) x e (inl q) = ap p q ∙ ground arith
  any-false (y ∷ xs) x e (inr i) = any-false xs x (ground arith) i

  pub any-false-of-all : (xs : List A) → ((x : A) → In x xs → p x ≡ false) → any p xs ≡ false
  any-false-of-all [] h = refl
  any-false-of-all (x ∷ xs) h =
      let e = h x (inl refl) in rw e (any-false-of-all xs (λ y i. h y (inr i)))

  pub In-keep : (xs : List A) (x : A) → In x (keep p xs) ↔ (In x xs × (p x ≡ true))
  In-keep xs x = (sound xs, complete xs)
    where
      sound : (xs : List A) → In x (keep p xs) → In x xs × (p x ≡ true)
      sound [] i = elim i [ ]
      sound (y ∷ ys) i = elim (Bool-cases (p y)) [
        | inl e ↦ elim (rw e at i) [
          | inl q ↦ (inl q, ap p q ∙ e)
          | inr j ↦ let (k, f) = sound ys j in (inr k, f)
        ]
        | inr e ↦ let (k, f) = sound ys (rw e at i) in (inr k, f)
      ]

      complete : (xs : List A) → In x xs × (p x ≡ true) → In x (keep p xs)
      complete [] (i, e) = elim i [ ]
      complete (y ∷ ys) (inl q, e) = rw (← ap p q, e) (inl q)
      complete (y ∷ ys) (inr i, e) = elim (Bool-cases (p y)) [
        | inl f ↦ rw f (inr (complete ys (i, e)))
        | inr f ↦ rw f (complete ys (i, e))
      ]

-- A count that is not zero means that some item passes.
pub count_if-any : {A : Type 0} (p : A → Bool) (xs : List A) → ltb 0 (count_if p xs) ≡ any p xs
count_if-any p [] = refl
count_if-any p (x ∷ xs) = ground (arith, count_if-any p xs)
