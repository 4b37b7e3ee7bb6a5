-- ===== src/Verifier/Consensus/Groups.antt =====
-- The groups of rule_consensus.go (pkg/verifier): without an expected value, the attestations that
-- agree are a largest group of one claim value.
use intentproof_tools.Prelude.{
  ℕ, ◌≤◌, ◌≡◌, refl, sym, ap, ◌∙◌, ◌≢◌, ◌⊎◌, inl, inr, String, List, [], ◌∷◌, ◌++◌, map, Bool, true,
  false, none, ◌==◌, Eq-ℕ, Eq-String, if◌then◌else◌, length, arith, In, keep, Bool-cases, eq-true,
  length-map,
}
use mathlib.Core.List.{append-nil, append_assoc}
use text.Mathlib.TextEquality.{eq_iff}
use intentproof_tools.Prelude.Sorting.{str_lt, sort, sort_strings}
use intentproof_tools.Prelude.Sorting.Members.{In-sort}
use intentproof_tools.Value.{Value}
use intentproof_tools.Verifier.Types.{Attestation}
use intentproof_tools.Verifier.Attestations.{attestation_ids}
use intentproof_tools.Verifier.Consensus.{
  Groups, add_to_group, group_of, group_from, better, largest, agreement, Agreement,
}

chosen : {A : Type 0} (x y : A) {b : Bool} → b ≡ true → (if b then x else y) ≡ x
chosen x y e = rw e

passed_over : {A : Type 0} (x y : A) {b : Bool} → b ≡ false → (if b then x else y) ≡ y
passed_over x y e = rw e

eq-sym-false : (s t : String) → (s == t) ≡ false → (t == s) ≡ false
eq-sym-false s t h = ground (arith, eq_iff s t, eq_iff t s)

module _ (claim_key : Value → String) where
  abbrev pub of_key : String → Attestation → Bool
  of_key k a = claim_key a.claim_value == k

  group_of-add_to_group :
      (k key id : String) (groups : Groups)
      → group_of k (add_to_group key id groups)
        ≡ group_of k groups ++ (if key == k then id ∷ [] else [])
  unfolding group_of add_to_group
  group_of-add_to_group k key id [] = ground arith
  group_of-add_to_group k key id ((j, ids) ∷ groups) = elim (Bool-cases (j == key)) [
    | inl e ↦
        rw ((eq_iff j key).0 e, eq-true key key refl)
          (elim (Bool-cases (key == k)) [ inl f ↦ rw f | inr f ↦ rw f (sym (append-nil _)) ])
    | inr e ↦ rw e (elim (Bool-cases (j == k)) [
      | inr f ↦ rw f (group_of-add_to_group k key id groups)
      | inl f ↦ rw (f, ← (eq_iff j k).0 f, eq-sym-false j key e) (sym (append-nil ids))
    ])
  ]

  -- A group holds the ids of the attestations with its key, in order.
  group_of-group_from :
      (k : String) (atts : List Attestation) (groups : Groups)
      → group_of k (group_from claim_key groups atts)
        ≡ group_of k groups ++ attestation_ids (keep (of_key k) atts)
  unfolding group_from attestation_ids
  group_of-group_from k [] groups = sym (append-nil (group_of k groups))
  group_of-group_from k (a ∷ atts) groups =
      group_of-group_from k atts (add_to_group (claim_key a.claim_value) a.attestation_id groups)
      ∙ ap (λ l. l ++ attestation_ids (keep (of_key k) atts))
          (group_of-add_to_group k (claim_key a.claim_value) a.attestation_id groups)
      ∙ elim (Bool-cases (of_key k a)) [
        | inl e ↦ rw e (append_assoc (group_of k groups) (a.attestation_id ∷ []) _)
        | inr e ↦ rw e (append_assoc (group_of k groups) [] _)
      ]

  pub group_of-all :
      (k : String) (atts : List Attestation)
      → group_of k (group_from claim_key [] atts) ≡ attestation_ids (keep (of_key k) atts)
  unfolding group_of
  group_of-all k atts = group_of-group_from k atts []

-- A key with a group is one of the keys.
group_of-keys :
    (k : String) (groups : Groups) → group_of k groups ≢ [] → In k (map (λ g. g.0) groups)
unfolding group_of
group_of-keys k [] h = absurd (h refl)
group_of-keys k ((j, ids) ∷ groups) h = elim (Bool-cases (j == k)) [
  | inl e ↦ inl (sym ((eq_iff j k).0 e))
  | inr e ↦ inr (group_of-keys k groups (rw e at h))
]

module _ (groups : Groups) where
  abbrev size : String → ℕ
  size k = length (group_of k groups)

  better-true :
      (max_key : String) (max_count : ℕ) (k : String)
      → better groups max_key max_count k ≡ true
      → max_count ≤ size k
  unfolding better
  better-true max_key max_count k h = ground arith

  better-false :
      (max_key : String) (max_count : ℕ) (k : String)
      → better groups max_key max_count k ≡ false
      → size k ≤ max_count
  unfolding better
  better-false max_key max_count k h = ground arith

  next_count :
      (max_key : String) (max_count : ℕ) (k : String)
      → let n = (if better groups max_key max_count k then size k else max_count) in
        (max_count ≤ n) × (size k ≤ n)
  next_count max_key max_count k = elim (Bool-cases (better groups max_key max_count k)) [
    | inl e ↦ rw e (better-true max_key max_count k e, omega arith)
    | inr e ↦ rw e (omega arith, better-false max_key max_count k e)
  ]

  -- The loop ends at a count that is no smaller than those seen.
  largest-bounds :
      (ks : List String) (max_key : String) (max_count : ℕ)
      → (max_count ≤ (largest groups max_key max_count ks).1)
        × ((k : String) → In k ks → size k ≤ (largest groups max_key max_count ks).1)
  unfolding largest
  largest-bounds [] max_key max_count = (omega arith, λ k i. elim i [ ])
  largest-bounds (k ∷ ks) max_key max_count =
      let (m, n) = next_count max_key max_count k in
      let (b, c) =
        largest-bounds ks (if better groups max_key max_count k then k else max_key)
          (if better groups max_key max_count k then size k else max_count) in
      (omega arith, λ z i. elim i [ inl p ↦ rw p (omega arith) | inr j ↦ c z j ])

  -- It is the size of the group that it names, or the one that the loop began with.
  largest-attained :
      (ks : List String) (max_key : String) (max_count : ℕ)
      → ((largest groups max_key max_count ks).1 ≡ size (largest groups max_key max_count ks).0)
        ⊎ (((largest groups max_key max_count ks).1 ≡ max_count)
            × ((largest groups max_key max_count ks).0 ≡ max_key))
  unfolding largest
  largest-attained [] max_key max_count = inr (refl, refl)
  largest-attained (k ∷ ks) max_key max_count =
      elim (largest-attained ks (if better groups max_key max_count k then k else max_key)
        (if better groups max_key max_count k then size k else max_count)) [
          | inl e ↦ inl e
          | inr (e, f) ↦ elim (Bool-cases (better groups max_key max_count k)) [
            | inl b ↦ inl (e ∙ chosen _ _ b ∙ ap size (sym (f ∙ chosen _ _ b)))
            | inr b ↦ inr (e ∙ passed_over _ _ b, f ∙ passed_over _ _ b)
          ]
        ]

  -- Over all keys, the count is a bound for every group.
  largest-all :
      (max_key : String) (max_count : ℕ) (k : String)
      → size k ≤ (largest groups max_key max_count (sort_strings (map (λ g. g.0) groups))).1
  unfolding sort_strings
  largest-all max_key max_count k = by_group (group_of k groups) refl
    where
      by_group :
          (ids : List String)
          → group_of k groups ≡ ids
          → length ids
            ≤ (largest groups max_key max_count
                (sort str_lt (map (λ (g : String × List String). g.0) groups))).1
      by_group [] e = omega arith
      by_group (x ∷ ids) e = rw e at (
          (largest-bounds (sort str_lt (map (λ (g : String × List String). g.0) groups)) max_key
              max_count).1
            k ((In-sort str_lt k _).1 (group_of-keys k groups (λ f. cc))))

length-attestation_ids : (atts : List Attestation) → length (attestation_ids atts) ≡ length atts
unfolding attestation_ids
length-attestation_ids atts = length-map (λ a. a.attestation_id) atts

-- What rule_consensus.go counts without an expected value.
pub record IsLargestGroup (claim_key : Value → String) (atts : List Attestation) (a : Agreement)
    : Type 0 where
  pub counted : length a.evidence ≡ a.agree_count
  pub largest_of : (k : String) → length (keep (of_key claim_key k) atts) ≤ a.agree_count
  pub one_key : (k : String) × (a.evidence ≡ attestation_ids (keep (of_key claim_key k) atts))

-- Without an expected value the agreeing attestations are those of one claim value, no other value has
-- more, and the evidence names them all.
pub agreement-IsLargestGroup :
    (claim_key : Value → String) (atts : List Attestation)
    → IsLargestGroup claim_key atts (agreement claim_key none atts)
unfolding agreement sort_strings
agreement-IsLargestGroup claim_key atts =
    let groups = group_from claim_key [] atts in
    let ks = sort_strings (map (λ (g : String × List String). g.0) groups) in
    let k = (largest groups "" 0 ks).0 in
    let all_sizes = largest-all groups "" 0 in
    record {
      counted = elim (largest-attained groups ks "" 0) [
        | inl e ↦ sym e
        | inr (e, f) ↦ omega (arith, all_sizes k)
      ];
      largest_of = λ j. omega (
        arith,
        all_sizes j,
        ap length (group_of-all claim_key j atts),
        length-attestation_ids (keep (of_key claim_key j) atts),
      );
      one_key = (k, group_of-all claim_key k atts);
    }
