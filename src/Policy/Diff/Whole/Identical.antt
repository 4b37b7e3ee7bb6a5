-- ===== src/Policy/Diff/Whole/Identical.antt =====
-- When two policies are reported as identical (pkg/policy/diff.go).
use mathlib.Core.Bool.{false≢true}
use intentproof_tools.Prelude.{
  ◌≡◌, ◌↔◌, ◌≢◌, refl, ap, inl, inr, String, List, [], ◌∷◌, Bool, true, ◌&&◌, Option, ◌==◌,
  Eq-String, is_empty, Bool-cases, ◌<>◌, take_text, eq-true, arith,
}
use intentproof_tools.Prelude.Int.{ℤ}
use intentproof_tools.Prelude.Sorting.{sort_strings}
use intentproof_tools.Value.{Value, str, int}
use intentproof_tools.Policy.Input.{CanonicalPolicy, CanonicalRule, CompileResult}
use intentproof_tools.Policy.Diff.{indexed, diff_rules}
use intentproof_tools.Policy.Diff.Same.{SameRule, diff_rules_iff}
use intentproof_tools.Policy.Diff.Members.{cons-ne-nil, append-nil_iff}
use intentproof_tools.Policy.Diff.Whole.{
  PolicyDiff, DiffResult, canonicalize_scope, append_if_different, diff_policy_metadata,
  or_no_result, diff, headed, identical, format_diff,
}

is_empty_iff : {A : Type 0} (xs : List A) → (is_empty xs ≡ true) ↔ (xs ≡ [])
is_empty_iff [] = ((λ e. refl), (λ e. refl))
is_empty_iff (x ∷ xs) = ((λ e. cc), (λ e. absurd (cons-ne-nil x xs e)))

and_iff : (b c : Bool) → (b && c ≡ true) ↔ ((b ≡ true) × (c ≡ true))
and_iff b c = ground arith

-- The encoding of json keeps strings, integers and lists of strings apart.
abbrev pub KeepsApart : (Value → Value → Bool) → Type 0
KeepsApart json_equal =
    ((a b : String) → (json_equal (str a) (str b) ≡ true) ↔ (a ≡ b))
    × ((i j : ℤ) → (json_equal (int i) (int j) ≡ true) ↔ (i ≡ j))
    × ((xs ys : List String)
        → (json_equal (canonicalize_scope xs) (canonicalize_scope ys) ≡ true)
          ↔ (sort_strings xs ≡ sort_strings ys))

module _ (json_equal : Value → Value → Bool) where
  append_if_different_iff :
      (changes : List PolicyDiff) (name : String) (v w : Value)
      → (append_if_different json_equal changes name v w ≡ [])
        ↔ ((changes ≡ []) × (json_equal v w ≡ true))
  unfolding append_if_different
  append_if_different_iff changes name v w = elim (Bool-cases (json_equal v w)) [
    | inl t ↦ rw t ((λ e. (e, refl)), (λ (e, f). e))
    | inr n ↦
        let (f, g) = append-nil_iff changes _ in
        rw n ((λ e. absurd (cons-ne-nil _ _ ((f e).1))), (λ (e, k). cc))
  ]

  -- The fields of two policies without their rules.
  abbrev pub SameMetadata : CanonicalPolicy → CanonicalPolicy → Type 0
  SameMetadata l r =
      (l.name ≡ r.name)
      × (l.description ≡ r.description)
      × (l.spec_version ≡ r.spec_version)
      × (l.policy_version ≡ r.policy_version)
      × (l.policy_id ≡ r.policy_id)
      × (l.tenant_id ≡ r.tenant_id)
      × (sort_strings l.any_event_action_in ≡ sort_strings r.any_event_action_in)

  diff_policy_metadata_iff :
      (l r : CanonicalPolicy)
      → KeepsApart json_equal
      → (diff_policy_metadata json_equal l r ≡ []) ↔ SameMetadata l r
  unfolding diff_policy_metadata
  diff_policy_metadata_iff l r (texts, numbers, scopes) =
      let a = append_if_different_iff [] "name" (str l.name) (str r.name) in
      let b = append_if_different_iff _ "description" (str l.description) (str r.description) in
      let c = append_if_different_iff _ "spec_version" (str l.spec_version) (str r.spec_version) in
      let d =
        append_if_different_iff _ "policy_version" (int l.policy_version) (int r.policy_version) in
      let e = append_if_different_iff _ "policy_id" (str l.policy_id) (str r.policy_id) in
      let f = append_if_different_iff _ "tenant_id" (str l.tenant_id) (str r.tenant_id) in
      let g =
        append_if_different_iff _ "scope" (canonicalize_scope l.any_event_action_in)
          (canonicalize_scope r.any_event_action_in) in
      (
        λ h.
            let (h₁, scope) = g.0 h in
            let (h₂, tenant) = f.0 h₁ in
            let (h₃, policy) = e.0 h₂ in
            let (h₄, version) = d.0 h₃ in
            let (h₅, spec) = c.0 h₄ in
            let (h₆, description) = b.0 h₅ in
            let (h₇, name) = a.0 h₆ in
            (
              (texts l.name r.name).0 name,
              (texts l.description r.description).0 description,
              (texts l.spec_version r.spec_version).0 spec,
              (numbers l.policy_version r.policy_version).0 version,
              (texts l.policy_id r.policy_id).0 policy,
              (texts l.tenant_id r.tenant_id).0 tenant,
              (scopes l.any_event_action_in r.any_event_action_in).0 scope,
            ),
        λ (name, description, spec, version, policy, tenant, scope).
            let h₆ = a.1 (refl, (texts l.name r.name).1 name) in
            let h₅ = b.1 (h₆, (texts l.description r.description).1 description) in
            let h₄ = c.1 (h₅, (texts l.spec_version r.spec_version).1 spec) in
            let h₃ = d.1 (h₄, (numbers l.policy_version r.policy_version).1 version) in
            let h₂ = e.1 (h₃, (texts l.policy_id r.policy_id).1 policy) in
            let h₁ = f.1 (h₂, (texts l.tenant_id r.tenant_id).1 tenant) in
            g.1 (h₁, (scopes l.any_event_action_in r.any_event_action_in).1 scope),
      )

  abbrev pub SameRules : List CanonicalRule → List CanonicalRule → Type 0
  SameRules left right = (id : String) → SameRule json_equal (indexed id left) (indexed id right)

  same_iff :
      (left right : Option CompileResult)
      → KeepsApart json_equal
      → ((diff json_equal left right).same ≡ true) ↔ (
          SameMetadata (or_no_result left).policy (or_no_result right).policy
          × SameRules (or_no_result left).policy.rules (or_no_result right).policy.rules)
  unfolding diff
  same_iff left right apart =
      let l = (or_no_result left).policy in
      let r = (or_no_result right).policy in
      let metadata = diff_policy_metadata json_equal l r in
      let rules = diff_rules json_equal l.rules r.rules in
      let both = and_iff (is_empty metadata) (is_empty rules) in
      let m = is_empty_iff metadata in
      let n = is_empty_iff rules in
      let p = diff_policy_metadata_iff l r apart in
      let q = diff_rules_iff json_equal l.rules r.rules in
      (
        λ h. let (x, y) = both.0 h in (p.0 (m.0 x), q.0 (n.0 y)),
        λ (x, y). both.1 (m.1 (p.1 x), n.1 (q.1 y)),
      )

letters : {s t : String} → s ≡ t → (s == t) ≡ true
letters {s} {t} e = eq-true s t e

-- The first seven characters of a report tell the two cases apart.
first_letters :
    {A B : Type 0} (f : A → String) (g : B → String) (xs : List A) (ys : List B) (rest : String)
    → (headed "policy metadata changes:\n" f xs
        <> headed "rule changes:\n" g ys
        <> "old fingerprint: "
        <> rest)
      ≢ identical
first_letters f g (x ∷ xs) ys rest e = false≢true (letters (ap (take_text 7) e))
first_letters f g [] (y ∷ ys) rest e = false≢true (letters (ap (take_text 7) e))
first_letters f g [] [] rest e = false≢true (letters (ap (take_text 7) e))

reports_identical :
    (show : Option Value → String) (d : DiffResult)
    → (format_diff show d ≡ identical) ↔ (d.same ≡ true)
unfolding format_diff
reports_identical show d = elim (Bool-cases d.same) [
  | inl t ↦ rw t ((λ e. refl), (λ e. refl))
  | inr n ↦ rw n (
    (λ e. absurd (first_letters _ _ d.policy_changes d.rule_changes _ e)),
    (λ e. absurd (false≢true e)),
  )
]

-- If the JSON texts of strings, integers and sorted scopes are the same just for the same ones, the report
-- of the difference between two compiled policies, either of which may be missing, calls them identical
-- just if they agree in name, description, versions, id, tenant and the sorted actions of their scopes,
-- and their rules have the same ids and agree in category, severity and every field of their specs.
pub format_diff-identical_iff :
    (json_equal : Value → Value → Bool) (show : Option Value → String)
    (left right : Option CompileResult)
    → KeepsApart json_equal
    → (format_diff show (diff json_equal left right) ≡ identical) ↔ (
        SameMetadata json_equal (or_no_result left).policy (or_no_result right).policy
        × SameRules json_equal (or_no_result left).policy.rules (or_no_result right).policy.rules)
format_diff-identical_iff json_equal show left right apart =
    let (f, g) = reports_identical show (diff json_equal left right) in
    let (p, q) = same_iff json_equal left right apart in (λ e. p (f e), λ h. g (q h))
