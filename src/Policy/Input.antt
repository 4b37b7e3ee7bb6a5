-- ===== src/Policy/Input.antt =====
-- What the compiler of pkg/policy/compiler.go reads and writes, and its errors. The decoding of YAML
-- is yaml.v3's; a field that the document leaves out has its zero value.
use intentproof_tools.Prelude.{String, List, Bool, Option, Result, Counts}
use intentproof_tools.Prelude.Int.{ℤ}
use intentproof_tools.Value.{Value, Fields}

-- `yamlRule`. A nil map and an empty one are both `end` where the code only asks for the length.
pub record YamlRule : Type 0 where
  pub id : String
  pub type_ : String
  pub category : String
  pub severity : String
  pub spec : Fields
  pub action : String
  pub min : Value
  pub max : Value
  pub exactly : Value
  pub where_ : Fields
  pub after : String
  pub before : String
  pub where_predecessor : Option Fields
  pub without_predecessor : String
  pub count_basis : String
  pub all_required_ok : Option Bool
  pub from : Fields
  pub to : Fields
  pub clock_skew_tolerance : String
  pub claim : String
  pub expected_value : Value
  pub require_signed : Option Bool
  pub require_signed_alias : Option Bool
  pub sources : List Fields
  pub threshold : Fields
  pub operator : String
  pub value : Value
  pub source_id : String

-- `yamlPolicy`, with the two fields of its `yamlScope`.
pub record YamlPolicy : Type 0 where
  pub policy_id : String
  pub policy_version : ℤ
  pub tenant_id : String
  pub name : String
  pub description : String
  pub spec_version : String
  pub match_action : String
  pub any_event_action_in : List String
  pub rules : List YamlRule

pub record CanonicalRule : Type 0 where
  pub id : String
  pub category : String
  pub severity : String
  pub spec : Fields

pub record CanonicalPolicy : Type 0 where
  pub schema : String
  pub policy_id : String
  pub policy_version : ℤ
  pub tenant_id : String
  pub name : String
  pub description : String
  pub spec_version : String
  pub any_event_action_in : List String
  pub rules : List CanonicalRule
  pub policy_fingerprint : String

pub record CompileResult : Type 0 where
  pub policy : CanonicalPolicy
  pub fingerprint : String
  pub rule_counts : Counts

pub data CompileError : Type 0 where
  parse_yaml needs_policy_id needs_tenant_id needs_scope needs_rules no_fingerprint : CompileError
  needs_id needs_category bad_severity unknown_category needs_action duplicate_id : CompileError
  not_an_integer negative_min negative_max min_above_max exactly_conflict : CompileError
  two_predecessors predecessor_without_after needs_before_and_after : CompileError
  needs_from_and_to needs_max_duration needs_claim needs_sources needs_threshold : CompileError
  unanimous_not_true majority_not_true agree_below_one agree_not_numeric : CompileError
  not_one_threshold needs_operator unsupported_operator needs_number : CompileError
  needs_expected_value conflicting_signed : CompileError

abbrev pub Compiled : Type 0 → Type 0
Compiled A = Result CompileError A
