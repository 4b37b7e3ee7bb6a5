-- ===== src/Policy/Diff/Members.antt =====
-- The keys of maps and the ids of rules, for the comparison in pkg/policy/diff.go.
use mathlib.Core.Bool.{true≢false}
use text.Mathlib.TextEquality.{eq_iff}
use intentproof_tools.Prelude.{
  ◌≡◌, ◌≢◌, ◌↔◌, ◌⊎◌, refl, sym, ap, subst, ◌∙◌, inl, inr, String, List, [], ◌∷◌, ◌++◌, map, none,
  ◌==◌, Eq-String, In, any-true, Bool-cases,
}
use intentproof_tools.Prelude.Sorting.{sort_strings, str_lt}
use intentproof_tools.Prelude.Sorting.Members.{In-sort}
use intentproof_tools.Value.{Fields, get, keys, end, field}
use intentproof_tools.Policy.Checks.Dedupe.{mem-In}
use intentproof_tools.Policysig.{mem}
use intentproof_tools.Policy.Input.{CanonicalRule}
use intentproof_tools.Policy.Diff.{unique, indexed}

In-unique : (x : String) (xs : List String) → In x (unique xs) ↔ In x xs
unfolding unique
In-unique x [] = (λ i. i, λ i. i)
In-unique x (y ∷ xs) =
    let (f, g) = In-unique x xs in
    elim (Bool-cases (mem xs y)) [
      | inl e ↦ rw e (
        (λ i. inr (f i)),
        (λ i. elim i [
          | inl q ↦
              let (t, j, s) = any-true (λ t. t == y) xs e in
              g (subst (λ z. In z xs) ((eq_iff t y).0 s ∙ sym q) j)
          | inr j ↦ g j
        ]),
      )
      | inr e ↦ rw e (
        (λ i. elim i [ inl q ↦ inl q | inr j ↦ inr (f j) ]),
        (λ i. elim i [ inl q ↦ inl q | inr j ↦ inr (g j) ]),
      )
    ]

pub cons-ne-nil : {A : Type 0} (x : A) (xs : List A) → (x ∷ xs) ≢ []
cons-ne-nil x xs e = cc

pub append-nil_iff : {A : Type 0} (xs ys : List A) → (xs ++ ys ≡ []) ↔ ((xs ≡ []) × (ys ≡ []))
append-nil_iff [] ys = ((λ e. (refl, e)), (λ (e, f). f))
append-nil_iff (x ∷ xs) ys =
    ((λ e. absurd (cons-ne-nil x (xs ++ ys) e)), (λ (e, f). absurd (cons-ne-nil x xs e)))

pub get-missing : (k : String) (m : Fields) → ¬ In k (keys m) → get k m ≡ none
unfolding get keys
get-missing k end n = refl
get-missing k (field j v m) n = elim (Bool-cases (j == k)) [
  | inl e ↦ absurd (n (inl (sym ((eq_iff j k).0 e))))
  | inr e ↦ rw e (get-missing k m (λ i. n (inr i)))
]

pub indexed-missing :
    (id : String) (rules : List CanonicalRule)
    → ¬ In id (map (λ (r : CanonicalRule). r.id) rules)
    → indexed id rules ≡ none
unfolding indexed
indexed-missing id [] n = refl
indexed-missing id (r ∷ rules) n = elim (Bool-cases (r.id == id)) [
  | inl e ↦ absurd (n (inl (sym ((eq_iff r.id id).0 e))))
  | inr e ↦ rw (indexed-missing id rules (λ i. n (inr i)), e) refl
]

pub In-append_iff : (x : String) (xs ys : List String) → In x (xs ++ ys) ↔ (In x xs ⊎ In x ys)
In-append_iff x [] ys = ((λ i. inr i), (λ i. elim i [ inl j ↦ absurd j | inr j ↦ j ]))
In-append_iff x (y ∷ xs) ys =
    let (f, g) = In-append_iff x xs ys in
    (
      (λ i. elim i [
        | inl q ↦ inl (inl q)
        | inr j ↦ elim (f j) [ inl k ↦ inl (inr k) | inr k ↦ inr k ]
      ]),
      (λ i. elim i [
        | inl (inl q) ↦ inl q
        | inl (inr j) ↦ inr (g (inl j))
        | inr j ↦ inr (g (inr j))
      ]),
    )

-- A statement about all texts that holds of what is outside a list.
pub for_all :
    (P : String → Type 0) (xs : List String)
    → ((x : String) → In x (sort_strings (unique xs)) → P x)
    → ((x : String) → ¬ In x xs → P x)
    → (x : String) → P x
unfolding sort_strings
for_all P xs h n x = elim (Bool-cases (mem xs x)) [
  | inl e ↦ h x ((In-sort str_lt x (unique xs)).1 ((In-unique x xs).1 ((mem-In xs x).0 e)))
  | inr e ↦ n x (λ i. absurd (true≢false (sym ((mem-In xs x).1 i) ∙ e)))
]

abbrev pub rule_ids : List CanonicalRule → List String
rule_ids = map (λ (r : CanonicalRule). r.id)

pub map-append : (xs ys : List CanonicalRule) → rule_ids (xs ++ ys) ≡ rule_ids xs ++ rule_ids ys
map-append [] ys = refl
map-append (x ∷ xs) ys = ap (λ l. x.id ∷ l) (map-append xs ys)
