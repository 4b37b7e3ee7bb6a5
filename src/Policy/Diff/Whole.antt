-- ===== src/Policy/Diff/Whole.antt =====
-- `Diff`, `diffPolicyMetadata` and `FormatDiff` of pkg/policy/diff.go.
pub mod Identical
use intentproof_tools.Prelude.{
  String, List, [], ◌∷◌, ◌++◌, map, Bool, true, false, not, ◌&&◌, ◌||◌, Option, none, some, ◌==◌,
  Eq-String, if◌then◌else◌, is_empty, ◌<>◌,
}
use intentproof_tools.Prelude.Int.{ℤ, pos}
use intentproof_tools.Prelude.Sorting.{sort, sort_strings, str_lt}
use intentproof_tools.Value.{Value, str, int, obj, arr, Items, field, end}
use intentproof_tools.Policy.Input.{CanonicalPolicy, CanonicalRule, CompileResult}
use intentproof_tools.Policy.Diff.{
  DiffChangeKind, added, removed, changed, SpecChange, RuleDiff, kind_lt, change_lt, diff_rules,
}

pub record PolicyDiff : Type 0 where
  pub kind : DiffChangeKind
  pub name : String
  pub old_value : Value
  pub new_value : Value

pub record DiffResult : Type 0 where
  pub same : Bool
  pub policy_changes : List PolicyDiff
  pub rule_changes : List RuleDiff
  pub old_fingerprint : String
  pub new_fingerprint : String

abbrev pub strings : List String → Items
strings [] = Items.nil
strings (s ∷ ss) = Items.cons (str s) (strings ss)

unfoldable pub canonicalize_scope : List String → Value
unfolding sort_strings
canonicalize_scope actions =
    obj (field "any_event_action_in" (arr (strings (sort_strings actions))) end)

unfoldable pub policy_diff_lt : PolicyDiff → PolicyDiff → Bool
unfolding kind_lt
policy_diff_lt c d = if not (c.name == d.name) then str_lt c.name d.name else kind_lt c.kind d.kind

unfoldable pub rule_diff_lt : RuleDiff → RuleDiff → Bool
rule_diff_lt c d = str_lt c.rule_id d.rule_id

abbrev sorted_specs : RuleDiff → RuleDiff
sorted_specs r = record r { spec_changes = sort change_lt r.spec_changes }

-- The zero value of a CompileResult, which stands for a nil pointer.
abbrev no_result : CompileResult
no_result = record {
  policy = record {
    schema = "";
    policy_id = "";
    policy_version = pos 0;
    tenant_id = "";
    name = "";
    description = "";
    spec_version = "";
    any_event_action_in = [];
    rules = [];
    policy_fingerprint = "";
  };
  fingerprint = "";
  rule_counts = [];
}

abbrev pub or_no_result : Option CompileResult → CompileResult
or_no_result none = no_result
or_no_result (some r) = r

module _ (json_equal : Value → Value → Bool) where
  unfoldable pub append_if_different : List PolicyDiff → String → Value → Value → List PolicyDiff
  append_if_different changes name old new =
      if json_equal old new
      then changes
      else changes
        ++ (record { kind = changed; name = name; old_value = old; new_value = new }) ∷ []

  -- The scope is compared as the other fields are.
  unfoldable pub diff_policy_metadata : CanonicalPolicy → CanonicalPolicy → List PolicyDiff
  unfolding append_if_different canonicalize_scope
  diff_policy_metadata l r =
      let name = append_if_different [] "name" (str l.name) (str r.name) in
      let description =
        append_if_different name "description" (str l.description) (str r.description) in
      let spec_version =
        append_if_different description "spec_version" (str l.spec_version) (str r.spec_version) in
      let policy_version =
        append_if_different spec_version "policy_version" (int l.policy_version)
          (int r.policy_version) in
      let policy_id =
        append_if_different policy_version "policy_id" (str l.policy_id) (str r.policy_id) in
      let tenant_id =
        append_if_different policy_id "tenant_id" (str l.tenant_id) (str r.tenant_id) in
      append_if_different tenant_id "scope" (canonicalize_scope l.any_event_action_in)
        (canonicalize_scope r.any_event_action_in)

  abbrev pub diff_results : CompileResult → CompileResult → DiffResult
  diff_results l r =
      let policy_changes = diff_policy_metadata l.policy r.policy in
      let rule_changes = diff_rules json_equal l.policy.rules r.policy.rules in
      record {
        same = is_empty policy_changes && is_empty rule_changes;
        policy_changes = sort policy_diff_lt policy_changes;
        rule_changes = map sorted_specs (sort rule_diff_lt rule_changes);
        old_fingerprint = l.fingerprint;
        new_fingerprint = r.fingerprint;
      }

  -- `Diff`
  unfoldable pub diff : Option CompileResult → Option CompileResult → DiffResult
  unfolding diff_policy_metadata diff_rules sort policy_diff_lt rule_diff_lt change_lt
  diff left right = diff_results (or_no_result left) (or_no_result right)

abbrev joined : {A : Type 0} → (A → String) → List A → String
joined f [] = ""
joined f (x ∷ xs) = f x <> joined f xs

abbrev pub headed : {A : Type 0} → String → (A → String) → List A → String
headed head f [] = ""
headed head f (x ∷ xs) = head <> joined f (x ∷ xs)

abbrev pub identical : String
identical = "policies are semantically identical\n"

-- The text that `%v` gives a value, or nil, is an argument.
module _ (show : Option Value → String) where
  unfoldable pub spec_change_line : SpecChange → String
  spec_change_line c = elim c.kind [
    | added ↦ "      + " <> c.key <> ": " <> show c.new_value <> "\n"
    | removed ↦ "      - " <> c.key <> ": " <> show c.old_value <> "\n"
    | changed ↦
        "      ~ " <> c.key <> ": " <> show c.old_value <> " -> " <> show c.new_value <> "\n"
  ]

  unfoldable pub rule_diff_lines : RuleDiff → String
  unfolding spec_change_line
  rule_diff_lines r = elim r.kind [
    | added ↦ "  + " <> r.rule_id <> " (" <> r.new_category <> ", " <> r.new_severity <> ")\n"
    | removed ↦ "  - " <> r.rule_id <> " (" <> r.old_category <> ", " <> r.old_severity <> ")\n"
    | changed ↦ "  ~ " <> r.rule_id <> "\n" <> joined spec_change_line r.spec_changes
  ]

  unfoldable pub policy_diff_line : PolicyDiff → String
  policy_diff_line c = elim c.kind [
    | changed ↦
        "  ~ "
        <> c.name
        <> ": "
        <> show (some c.old_value)
        <> " -> "
        <> show (some c.new_value)
        <> "\n"
    | _ ↦ ""
  ]

  unfoldable pub format_diff : DiffResult → String
  unfolding policy_diff_line rule_diff_lines
  format_diff d =
      if d.same
      then identical
      else headed "policy metadata changes:\n" policy_diff_line d.policy_changes
        <> headed "rule changes:\n" rule_diff_lines d.rule_changes
        <> "old fingerprint: "
        <> d.old_fingerprint
        <> "\n"
        <> "new fingerprint: "
        <> d.new_fingerprint
        <> "\n"
