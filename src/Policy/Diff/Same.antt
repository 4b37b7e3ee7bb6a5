-- ===== src/Policy/Diff/Same.antt =====
-- When two lists of rules have no difference (pkg/policy/diff.go).
use text.Mathlib.TextEquality.{eq_iff}
use intentproof_tools.Prelude.{
  ◌≡◌, ◌↔◌, ◌⊎◌, refl, sym, subst, inl, inr, String, List, [], ◌∷◌, ◌++◌, map, Bool, true, Option,
  none, some, Eq-String, In, arith,
}
use intentproof_tools.Value.{Value, Fields, get, keys}
use intentproof_tools.Policy.Input.{CanonicalRule}
use intentproof_tools.Policy.Diff.{
  SpecChange, indexed, text_change, spec_change, spec_changes_at, all_keys, changes_of, rule_diff,
  diff_one_rule, diff_at, diff_ids, all_ids, diff_rules,
}
use intentproof_tools.Policy.Diff.Members.{
  cons-ne-nil, append-nil_iff, get-missing, indexed-missing, In-append_iff, for_all, map-append,
  rule_ids,
}

module _ (json_equal : Value → Value → Bool) where
  -- Two fields are both missing, or have one JSON text.
  abbrev pub SameValue : Option Value → Option Value → Type 0
  SameValue none none = Unit
  SameValue (some v) (some w) = json_equal v w ≡ true
  SameValue _ _ = ⊥

  -- Two rules agree in category, severity and every field of their specs.
  abbrev pub Agree : CanonicalRule → CanonicalRule → Type 0
  Agree l r =
      (l.category ≡ r.category)
      × (l.severity ≡ r.severity)
      × ((k : String) → SameValue (get k l.spec) (get k r.spec))

  abbrev pub SameRule : Option CanonicalRule → Option CanonicalRule → Type 0
  SameRule none none = Unit
  SameRule (some l) (some r) = Agree l r
  SameRule _ _ = ⊥

  spec_change_iff :
      (k : String) (o p : Option Value) → (spec_change json_equal k o p ≡ []) ↔ SameValue o p
  unfolding spec_change
  spec_change_iff k none none = ground arith
  spec_change_iff k (some v) none = ground arith
  spec_change_iff k none (some w) = ground arith
  spec_change_iff k (some v) (some w) = ground arith

  spec_changes_at_iff :
      (l r : Fields) (ks : List String)
      → (spec_changes_at json_equal l r ks ≡ [])
        ↔ ((k : String) → In k ks → SameValue (get k l) (get k r))
  unfolding spec_changes_at
  spec_changes_at_iff l r [] = ((λ e k i. elim i [ ]), (λ h. refl))
  spec_changes_at_iff l r (k ∷ ks) =
      let (f, g) = spec_changes_at_iff l r ks in
      let (a, b) = append-nil_iff (spec_change json_equal k (get k l) (get k r)) _ in
      let (c, d) = spec_change_iff k (get k l) (get k r) in
      (
        (λ e j i.
            let (x, y) = a e in
            elim i [
              | inl q ↦ subst (λ z. SameValue (get z l) (get z r)) (sym q) (c x)
              | inr m ↦ f y j m
            ]),
        (λ h. b (d (h k (inl refl)), g (λ j i. h j (inr i)))),
      )

  text_change_iff : (key a b : String) → (text_change key a b ≡ []) ↔ (a ≡ b)
  unfolding text_change
  text_change_iff key a b = ground (arith, eq_iff a b)

  both_missing :
      (l r : Fields) (k : String) → ¬ In k (keys l ++ keys r) → SameValue (get k l) (get k r)
  both_missing l r k n =
      let (f, g) = In-append_iff k (keys l) (keys r) in
      rw (get-missing k l (λ i. n (g (inl i))), get-missing k r (λ i. n (g (inr i)))) tt

  changes_of_iff : (l r : CanonicalRule) → (changes_of json_equal l r ≡ []) ↔ Agree l r
  unfolding changes_of
  changes_of_iff l r =
      let specs = spec_changes_at json_equal l.spec r.spec (all_keys json_equal l.spec r.spec) in
      let categories = text_change "category" l.category r.category in
      let severities = text_change "severity" l.severity r.severity in
      let (a, b) = append-nil_iff (categories ++ severities) specs in
      let (c, d) = append-nil_iff categories severities in
      let (f, g) = spec_changes_at_iff l.spec r.spec (all_keys json_equal l.spec r.spec) in
      let category = text_change_iff "category" l.category r.category in
      let severity = text_change_iff "severity" l.severity r.severity in
      (
        (λ e.
            let (x, y) = a e in
            let (z, w) = c x in
            (
              category.0 z,
              severity.0 w,
              for_all (λ k. SameValue (get k l.spec) (get k r.spec)) (keys l.spec ++ keys r.spec)
                  (f y) (both_missing l.spec r.spec),
            )),
        (λ (x, y, h). b (d (category.1 x, severity.1 y), g (λ k i. h k))),
      )

  rule_diff_iff :
      (l r : CanonicalRule) (cs : List SpecChange) → (rule_diff json_equal l r cs ≡ []) ↔ (cs ≡ [])
  unfolding rule_diff
  rule_diff_iff l r [] = ((λ e. refl), (λ e. refl))
  rule_diff_iff l r (c ∷ cs) =
      ((λ e. absurd (cons-ne-nil _ _ e)), (λ e. absurd (cons-ne-nil _ _ e)))

  diff_one_rule_iff : (l r : CanonicalRule) → (diff_one_rule json_equal l r ≡ []) ↔ Agree l r
  unfolding diff_one_rule
  diff_one_rule_iff l r =
      let (f, g) = changes_of_iff l r in
      let (a, b) = rule_diff_iff l r (changes_of json_equal l r) in ((λ e. f (a e)), (λ h. b (g h)))

  diff_at_iff :
      (id : String) (o p : Option CanonicalRule) → (diff_at json_equal id o p ≡ []) ↔ SameRule o p
  unfolding diff_at
  diff_at_iff id none none = ground arith
  diff_at_iff id (some l) none = ((λ e. absurd (cons-ne-nil _ _ e)), (λ f. absurd f))
  diff_at_iff id none (some r) = ((λ e. absurd (cons-ne-nil _ _ e)), (λ f. absurd f))
  diff_at_iff id (some l) (some r) = diff_one_rule_iff l r

  diff_ids_iff :
      (left right : List CanonicalRule) (ids : List String)
      → (diff_ids json_equal left right ids ≡ [])
        ↔ ((id : String) → In id ids → SameRule (indexed id left) (indexed id right))
  unfolding diff_ids
  diff_ids_iff left right [] = ((λ e k i. elim i [ ]), (λ h. refl))
  diff_ids_iff left right (id ∷ ids) =
      let (f, g) = diff_ids_iff left right ids in
      let (a, b) = append-nil_iff (diff_at json_equal id (indexed id left) (indexed id right)) _ in
      let (c, d) = diff_at_iff id (indexed id left) (indexed id right) in
      (
        (λ e j i.
            let (x, y) = a e in
            elim i [
              | inl q ↦ subst (λ z. SameRule (indexed z left) (indexed z right)) (sym q) (c x)
              | inr m ↦ f y j m
            ]),
        (λ h. b (d (h id (inl refl)), g (λ j i. h j (inr i)))),
      )

  neither_indexed :
      (left right : List CanonicalRule) (id : String)
      → ¬ In id (map (λ (r : CanonicalRule). r.id) (left ++ right))
      → SameRule (indexed id left) (indexed id right)
  neither_indexed left right id n =
      let (f, g) = In-append_iff id (rule_ids left) (rule_ids right) in
      let m : ¬ (In id (rule_ids left) ⊎ In id (rule_ids right)) =
        λ i. n (subst (In id) (sym (map-append left right)) (g i)) in
      rw (indexed-missing id left (λ i. m (inl i)), indexed-missing id right (λ i. m (inr i))) tt

  -- Two lists of rules have no difference just if they have rules of the same ids, and the last rules
  -- with each id agree in category, severity and every field of their specs.
  pub diff_rules_iff :
      (left right : List CanonicalRule)
      → (diff_rules json_equal left right ≡ [])
        ↔ ((id : String) → SameRule (indexed id left) (indexed id right))
  unfolding diff_rules
  diff_rules_iff left right =
      let (f, g) = diff_ids_iff left right (all_ids json_equal left right) in
      (
        (λ e.
            for_all (λ id. SameRule (indexed id left) (indexed id right))
              (map (λ (r : CanonicalRule). r.id) (left ++ right)) (f e)
              (neither_indexed left right)),
        (λ h. g (λ id i. h id)),
      )
