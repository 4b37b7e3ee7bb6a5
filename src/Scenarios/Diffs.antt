-- ===== src/Scenarios/Diffs.antt =====
-- Two versions of a policy through the comparison of pkg/policy/diff.go.
use text.Mathlib.TextEquality.{eq_iff}
use intentproof_tools.Prelude.{
  ◌≡◌, ◌↔◌, refl, String, List, [], ◌∷◌, Bool, true, false, ◌&&◌, Option, some, arith, ◌==◌,
  Eq-String, Eq-ℕ,
}
use intentproof_tools.Prelude.Int.{ℤ, pos, negsuc}
use intentproof_tools.Prelude.Sorting
use intentproof_tools.Value
use intentproof_tools.Value.{Value, str, int, obj, arr, Items, end, field}
use intentproof_tools.Policy.Input.{CanonicalRule, CanonicalPolicy, CompileResult}
use intentproof_tools.Policy.Diff
use intentproof_tools.Policy.Diff.{RuleDiff, indexed, diff_rules, removed, changed}
use intentproof_tools.Policy.Diff.Whole
use intentproof_tools.Policy.Diff.Whole.{strings, diff, identical, format_diff}
use intentproof_tools.Policy.Diff.Whole.Identical.{
  KeepsApart, SameMetadata, SameRules, format_diff-identical_iff,
}

-- Texts have one JSON text just if they are equal.
abbrev same_text : Value → Value → Bool
same_text (str a) (str b) = a == b
same_text _ _ = false

-- The values that a comparison of policies meets.
same_items : Items → Items → Bool
same_items Items.nil Items.nil = true
same_items (Items.cons (str a) v) (Items.cons (str b) w) = a == b && same_items v w
same_items _ _ = false

abbrev same_int : ℤ → ℤ → Bool
same_int (pos m) (pos n) = m == n
same_int (negsuc m) (negsuc n) = m == n
same_int _ _ = false

same_int_iff : (i j : ℤ) → (same_int i j ≡ true) ↔ (i ≡ j)
same_int_iff (pos m) (pos n) = ground arith
same_int_iff (pos m) (negsuc n) = ground arith
same_int_iff (negsuc m) (pos n) = ground arith
same_int_iff (negsuc m) (negsuc n) = ground arith

abbrev same_json : Value → Value → Bool
same_json (str a) (str b) = a == b
same_json (int i) (int j) = same_int i j
same_json (obj (field k (arr v) end)) (obj (field l (arr w) end)) = same_items v w
same_json _ _ = false

same_items_iff : (xs ys : List String) → (same_items (strings xs) (strings ys) ≡ true) ↔ (xs ≡ ys)
unfolding same_items
same_items_iff [] [] = ground arith
same_items_iff [] (y ∷ ys) = ground arith
same_items_iff (x ∷ xs) [] = ground arith
same_items_iff (x ∷ xs) (y ∷ ys) = ground (arith, eq_iff x y, same_items_iff xs ys)

same_json-KeepsApart : KeepsApart same_json
unfolding Whole.canonicalize_scope
same_json-KeepsApart = (
  λ a b. eq_iff a b,
  λ i j. same_int_iff i j,
  λ xs ys. same_items_iff (Sorting.sort_strings xs) (Sorting.sort_strings ys),
)

abbrev rule : String → String → CanonicalRule
rule id action = record {
  id = id;
  category = "required";
  severity = "low";
  spec = field "action" (str action) end;
}

abbrev old_rules : List CanonicalRule
old_rules = rule "r1" "refund" ∷ rule "r2" "close" ∷ []

abbrev new_rules : List CanonicalRule
new_rules = rule "r2" "reopen" ∷ []

one_removed_and_one_changed :
    Diff.diff_rules same_text old_rules new_rules
    ≡ (record {
      rule_id = "r1";
      kind = removed;
      old_category = "required";
      new_category = "";
      old_severity = "low";
      new_severity = "";
      spec_changes = [];
    })
      ∷ (record {
        rule_id = "r2";
        kind = changed;
        old_category = "required";
        new_category = "required";
        old_severity = "low";
        new_severity = "low";
        spec_changes =
            (record {
              kind = changed;
              key = "action";
              old_value = some (str "close");
              new_value = some (str "reopen");
            })
            ∷ [];
      })
      ∷ []
unfolding diff_rules Diff.unique indexed Diff.diff_ids Diff.diff_at Diff.diff_one_rule
    Diff.rule_diff Diff.changes_of Diff.text_change Diff.spec_changes_at Diff.spec_change
    Diff.change_lt Sorting.sort_strings Sorting.sort Sorting.insert_sorted Sorting.str_lt Value.get
    Value.keys
one_removed_and_one_changed = refl

abbrev policy : String → List CanonicalRule → CanonicalPolicy
policy name rules = record {
  schema = "intentproof.policy.v1";
  policy_id = "acme.refund";
  policy_version = pos 1;
  tenant_id = "acme";
  name = name;
  description = "";
  spec_version = "1";
  any_event_action_in = "refund" ∷ [];
  rules = rules;
  policy_fingerprint = "";
}

abbrev compiled : List CanonicalRule → Option CompileResult
compiled rules =
    some (record { policy = policy "refunds" rules; fingerprint = "fp"; rule_counts = [] })

format_diff-identical_iff_example :
    (format_diff (λ v. "v") (diff same_json (compiled old_rules) (compiled new_rules)) ≡ identical)
    ↔ (SameMetadata same_json (policy "refunds" old_rules) (policy "refunds" new_rules)
        × SameRules same_json old_rules new_rules)
format_diff-identical_iff_example =
    format_diff-identical_iff same_json (λ v. "v") (compiled old_rules) (compiled new_rules)
      same_json-KeepsApart
