-- ===== src/Policy/CompileRule.antt =====
-- `compileRule` of pkg/policy/compiler.go.
use intentproof_tools.Prelude.{
  String, not, ◌==◌, Eq-String, if◌then◌else◌, trim_space, err, ok, ◌>>=◌, ◌>>◌, guard,
}
use intentproof_tools.Value.{Value, Fields}
use intentproof_tools.Policy.Input.{
  YamlRule, CanonicalRule, Compiled, needs_id, needs_category, unknown_category,
}
use intentproof_tools.Policy.Normalize.{normalize_fields}
use intentproof_tools.Policy.Checks.{validate_severity, is_known_rule_category}
use intentproof_tools.Policy.Shorthand.{
  no_fields, compile_required, compile_forbidden, compile_ordering, compile_cardinality,
  compile_temporal, compile_consensus, compile_value_bound, compile_claim_match,
}

-- `if s == "" { s = t }`
abbrev pub default_to : String → String → String
default_to t s = if s == "" then t else s

unfoldable pub rule_category : YamlRule → String
rule_category r = default_to (trim_space r.type_) (trim_space r.category)

unfoldable pub rule_severity : YamlRule → String
rule_severity r = default_to "medium" (trim_space r.severity)

module _ (sprint : Value → String) where
  -- The switch over the categories.
  unfoldable pub compile_spec : String → YamlRule → Compiled Fields
  compile_spec category r =
      if category == "required"
      then compile_required sprint r
      else if category == "forbidden"
      then compile_forbidden sprint r
      else if category == "ordering"
      then compile_ordering sprint r
      else if category == "cardinality"
      then compile_cardinality sprint r
      else if category == "temporal"
      then compile_temporal sprint r
      else if category == "consensus"
      then compile_consensus sprint r
      else if category == "value_bound"
      then compile_value_bound sprint r
      else if category == "claim_match"
      then compile_claim_match sprint r
      else err unknown_category

  -- A rule that has a spec already keeps it.
  unfoldable pub rule_spec : YamlRule → Compiled Fields
  rule_spec r =
      if no_fields r.spec
      then compile_spec (rule_category r) r
      else ok (normalize_fields sprint r.spec)

  unfoldable pub compile_rule : YamlRule → Compiled CanonicalRule
  compile_rule r =
      let id = trim_space r.id in
      do
        guard (not (id == "")) needs_id
        guard (not (rule_category r == "")) needs_category
        validate_severity (rule_severity r)
        guard (is_known_rule_category (rule_category r)) unknown_category
        spec ← rule_spec r
        ok (record { id = id; category = rule_category r; severity = rule_severity r; spec = spec })
