-- ===== src/Policy/Compile.antt =====
-- `Compile` of pkg/policy/compiler.go. The decoding of YAML and the fingerprint are parameters.
pub mod Loop
pub mod Accepts
pub mod Complete
use Prim.Native.Char.{code}
use intentproof_tools.Prelude.{
  ℕ, String, List, [], ◌∷◌, ◌++◌, Bool, not, is_empty, Option, none, some, ◌==◌, Eq-ℕ, Eq-String,
  if◌then◌else◌, ok, ◌>>=◌, ◌>>◌, guard, or_err, Counts, increment,
}
use intentproof_tools.Prelude.Int.{ℤ, pos, ltb_ℤ}
use intentproof_tools.Prelude.Sorting.{sort, str_lt}
use intentproof_tools.Value.{Value}
use intentproof_tools.Policysig.{mem}
use intentproof_tools.Policy.Input.{
  YamlRule, YamlPolicy, CanonicalRule, CanonicalPolicy, CompileResult, Compiled, parse_yaml,
  needs_policy_id, needs_tenant_id, needs_scope, needs_rules, no_fingerprint, duplicate_id,
}
use intentproof_tools.Policy.Checks.{dedupe_strings}
use intentproof_tools.Policy.CompileRule.{compile_rule, default_to}

-- `strings.SplitN(s, ".", 2)[0]`, where there are two parts.
unfoldable pub before_dot : String → Option String
before_dot String.[] = none
before_dot (String.◌∷◌ c s) =
    if code c == b'.'
    then some String.[]
    else elim (before_dot s) [ none ↦ none | some p ↦ some (String.◌∷◌ c p) ]

-- The tenant of a policy, which may be the first part of its id.
unfoldable pub tenant_of : YamlPolicy → String
tenant_of p =
    if p.tenant_id == ""
    then elim (before_dot p.policy_id) [ none ↦ "" | some first ↦ first ]
    else p.tenant_id

unfoldable pub version_of : YamlPolicy → ℤ
version_of p = if ltb_ℤ (pos 0) p.policy_version then p.policy_version else pos 1

unfoldable pub scope_actions : YamlPolicy → List String
scope_actions p = dedupe_strings (
    if p.match_action == ""
    then p.any_event_action_in
    else p.any_event_action_in ++ p.match_action ∷ [])

-- The variables of the loop over the rules.
pub record Progress : Type 0 where
  pub seen_rule_ids : List String
  pub rules : List CanonicalRule
  pub rule_counts : Counts

abbrev pub start : Progress
start = record { seen_rule_ids = []; rules = []; rule_counts = [] }

abbrev pub count_lt : (String × ℕ) → (String × ℕ) → Bool
count_lt (k, m) (j, n) = str_lt k j

module _ (sprint : Value → String) where
  -- The body of the loop.
  unfoldable pub add_rule : Progress → YamlRule → Compiled Progress
  add_rule p r = do
    canonical ← compile_rule sprint r
    guard (not (mem p.seen_rule_ids canonical.id)) duplicate_id
    ok (record {
      seen_rule_ids = canonical.id ∷ p.seen_rule_ids;
      rules = p.rules ++ canonical ∷ [];
      rule_counts = increment canonical.category p.rule_counts;
    })

  unfoldable pub add_rules : Progress → List YamlRule → Compiled Progress
  add_rules p [] = ok p
  add_rules p (r ∷ rules) = add_rule p r >>= λ q. add_rules q rules

  module _ (compute_fingerprint : CanonicalPolicy → Option String) where
    abbrev pub canonical_policy : YamlPolicy → List CanonicalRule → CanonicalPolicy
    canonical_policy input rules = record {
      schema = "intentproof.policy.v1";
      policy_id = input.policy_id;
      policy_version = version_of input;
      tenant_id = tenant_of input;
      name = input.name;
      description = input.description;
      spec_version = default_to "1.0.0" input.spec_version;
      any_event_action_in = scope_actions input;
      rules = rules;
      policy_fingerprint = "";
    }

    unfoldable pub compile : Option YamlPolicy → Compiled CompileResult
    compile decoded = do
      input ← or_err decoded parse_yaml
      guard (not (input.policy_id == "")) needs_policy_id
      guard (not (tenant_of input == "")) needs_tenant_id
      guard (not (is_empty (scope_actions input))) needs_scope
      progress ← add_rules start input.rules
      guard (not (is_empty progress.rules)) needs_rules
      let policy = canonical_policy input progress.rules
      fingerprint ← or_err (compute_fingerprint policy) no_fingerprint
      ok (record {
        policy = record policy { policy_fingerprint = fingerprint };
        fingerprint = fingerprint;
        rule_counts = sort count_lt progress.rule_counts;
      })
