-- ===== src/Policy/Checks/Dedupe.antt =====
-- `dedupeStrings` (pkg/policy/compiler.go) gives the ascending list of the texts that are not empty.
use mathlib.Core.Bool.{false≢true}
use text.Mathlib.TextEquality.{eq_iff}
use intentproof_tools.Prelude.{
  ◌≡◌, ◌≢◌, ◌↔◌, refl, sym, ◌∙◌, inl, inr, String, List, [], ◌∷◌, true, not, ◌&&◌, ◌||◌, ◌==◌,
  Eq-String, Bool-cases, In, Distinct, any-true, any-of-In, subst, arith,
}
use intentproof_tools.Prelude.Sorting.{sort_strings, str_lt}
use intentproof_tools.Prelude.Sorting.Members.{In-sort}
use intentproof_tools.Prelude.Sorting.Ascending.{
  Ascending, sort_strings-Ascending, Ascending-unique,
}
use intentproof_tools.Policysig.{mem}
use intentproof_tools.Policy.Checks.{dedupe_from, dedupe_strings}

pub mem-In : (set : List String) (x : String) → (mem set x ≡ true) ↔ In x set
mem-In set x = (
  (λ h. let (t, i, e) = any-true (λ t. t == x) set h in subst (λ s. In s set) ((eq_iff t x).0 e) i),
  (λ i. any-of-In (λ t. t == x) set x i ((eq_iff x x).1 refl)),
)

dedupe_from_lem :
    (x : String) (out values : List String)
    → mem (dedupe_from out values) x ≡ (mem out x || (not (x == "") && mem values x))
unfolding dedupe_from
dedupe_from_lem x out [] = ground arith
dedupe_from_lem x out (v ∷ values) = ground (
  arith,
  eq_iff v x,
  eq_iff v "",
  eq_iff x "",
  dedupe_from_lem x out values,
  dedupe_from_lem x (v ∷ out) values,
)

dedupe_from-Distinct : (out values : List String) → Distinct out → Distinct (dedupe_from out values)
unfolding dedupe_from
dedupe_from-Distinct out [] d = d
dedupe_from-Distinct out (v ∷ values) d = elim (Bool-cases (v == "")) [
  | inl e ↦ rw e (dedupe_from-Distinct out values d)
  | inr e ↦ elim (Bool-cases (mem out v)) [
    | inl m ↦ rw (e, m) (dedupe_from-Distinct out values d)
    | inr m ↦
        rw (e, m)
          (dedupe_from-Distinct (v ∷ out) values
            ((λ i. absurd (false≢true (sym m ∙ (mem-In out v).1 i))), d))
  ]
]

dedupe_from-In :
    (values : List String) (x : String) → In x (dedupe_from [] values) ↔ (In x values × (x ≢ ""))
dedupe_from-In values x =
    let l = dedupe_from_lem x [] values in
    let m = mem-In (dedupe_from [] values) x in
    let n = mem-In values x in
    (
      (λ i.
          let h = sym l ∙ m.1 i in
          (n.0 (ground (arith, h)), (λ q. ground (arith, h, eq_iff x "")))),
      (λ (i, q). m.0 (l ∙ (let h = n.1 i in ground (arith, eq_iff x "")))),
    )

dedupe_strings-Ascending : (values : List String) → Ascending (dedupe_strings values)
unfolding dedupe_strings
dedupe_strings-Ascending values =
    sort_strings-Ascending (dedupe_from [] values) (dedupe_from-Distinct [] values tt)

dedupe_strings-In :
    (values : List String) (x : String) → In x (dedupe_strings values) ↔ (In x values × (x ≢ ""))
unfolding dedupe_strings sort_strings
dedupe_strings-In values x =
    let s = In-sort str_lt x (dedupe_from [] values) in
    let d = dedupe_from-In values x in ((λ i. d.0 (s.0 i)), (λ i. s.1 (d.1 i)))

-- The result has just the given texts that are not empty, in ascending order, so that no text stands
-- twice. Two lists with the same texts, apart from the empty one, give the same result.
pub dedupe_strings-canonical :
    (values others : List String)
    → ((x : String) → (In x values × (x ≢ "")) ↔ (In x others × (x ≢ "")))
    → Ascending (dedupe_strings values)
      × ((x : String) → In x (dedupe_strings values) ↔ (In x values × (x ≢ "")))
      × (dedupe_strings values ≡ dedupe_strings others)
dedupe_strings-canonical values others h = (
  dedupe_strings-Ascending values,
  dedupe_strings-In values,
  Ascending-unique (dedupe_strings values) (dedupe_strings others) (dedupe_strings-Ascending values)
      (dedupe_strings-Ascending others)
      (λ x. (
        (λ i. (dedupe_strings-In others x).1 ((h x).0 ((dedupe_strings-In values x).0 i))),
        (λ i. (dedupe_strings-In values x).1 ((h x).1 ((dedupe_strings-In others x).0 i))),
      )),
)
