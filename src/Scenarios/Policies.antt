-- ===== src/Scenarios/Policies.antt =====
-- A refund policy through the compiler of pkg/policy.
use intentproof_tools.Prelude.{
  ◌*◌, ◌^◌, ap, ◌≡◌, refl, inl, inr, String, List, [], ◌∷◌, Option, none, some, In, is_empty, err,
  ok, increment, ne-of-eq-false, trim_space,
}
use intentproof_tools.Prelude.Int.{pos}
use intentproof_tools.Prelude.Sorting
use intentproof_tools.Value
use intentproof_tools.Value.{Value, Fields, Float64, null, bool, str, int, float64, end, field, get}
use intentproof_tools.Value.Number
use intentproof_tools.Verifier.Types.{Event, Rule, Attestation, Decides, Forbids}
use mathlib.Core.Bool.{false≢true}
use intentproof_tools.Verifier.Filters
use intentproof_tools.Verifier.Filters.{filter_events}
use intentproof_tools.Verifier.Events.{selected, evaluate_forbidden}
use intentproof_tools.Verifier.Events.Forbidden.{SomeAfter}
use intentproof_tools.Verifier.Attestations.{attested, evaluate_value_bound}
use intentproof_tools.Verifier.Attestations.Bounds.{Holds}
use intentproof_tools.Policy.Input.{
  YamlRule, YamlPolicy, CanonicalRule, CanonicalPolicy, CompileResult, duplicate_id,
}
use intentproof_tools.Policy.Normalize
use intentproof_tools.Policy.Checks
use intentproof_tools.Policy.Checks.{dedupe_strings, validate_threshold, validate_min_max}
use intentproof_tools.Policy.Shorthand
use intentproof_tools.Policy.Shorthand.{compile_value_bound, compile_forbidden}
use intentproof_tools.Policy.CompileRule
use intentproof_tools.Policy.Compile
use intentproof_tools.Policy.Compile.{compile, canonical_policy, start, add_rules}
use intentproof_tools.Policy.Compile.Accepts.{Accepted, compile-Accepted}
use intentproof_tools.Policy.Compile.Complete.{compile_complete}
use intentproof_tools.Policy.Conformance.{compiled_value_bound_decides}
use intentproof_tools.Policy.Conformance.Forbidden.{compiled_without_predecessor}

abbrev no_print : Value → String
no_print v = ""

abbrev fixed : CanonicalPolicy → Option String
fixed p = some "sha256:00"

abbrev blank : YamlRule
blank = record {
  id = "r";
  type_ = "";
  category = "";
  severity = "";
  spec = end;
  action = "";
  min = null;
  max = null;
  exactly = null;
  where_ = end;
  after = "";
  before = "";
  where_predecessor = none;
  without_predecessor = "";
  count_basis = "";
  all_required_ok = none;
  from = end;
  to = end;
  clock_skew_tolerance = "";
  claim = "";
  expected_value = null;
  require_signed = none;
  require_signed_alias = none;
  sources = [];
  threshold = end;
  operator = "";
  value = null;
  source_id = "";
}

abbrev no_refund_after_close : YamlRule
no_refund_after_close = record blank {
  id = "no-refund";
  type_ = "forbidden";
  severity = "high";
  action = "refund";
  after = "close";
  without_predecessor = "approve";
}

abbrev one_approval : YamlRule
one_approval = record blank {
  id = "approved";
  type_ = " required ";
  action = "approve";
  min = int (pos 1);
}

abbrev refund_policy : YamlPolicy
refund_policy = record {
  policy_id = "acme.refunds";
  policy_version = pos 0;
  tenant_id = "";
  name = "Refunds";
  description = "";
  spec_version = "";
  match_action = "refund";
  any_event_action_in = "close" ∷ "refund" ∷ [];
  rules = one_approval ∷ no_refund_after_close ∷ [];
}

-- What the compiler computes with.
abbrev opened : Unit {0}
unfolding compile add_rules Compile.add_rule Compile.tenant_of Compile.before_dot Compile.version_of
    Compile.scope_actions CompileRule.compile_rule CompileRule.rule_spec CompileRule.rule_category
    CompileRule.rule_severity CompileRule.compile_spec Shorthand.compile_required compile_forbidden
    compile_value_bound Shorthand.set_text Shorthand.set_int Shorthand.set_map
    Checks.validate_severity Checks.is_known_rule_category Checks.is_value_bound_operator
    Checks.int_from_any validate_min_max Checks.is_negative Checks.exceeds Checks.dedupe_strings
    Checks.dedupe_from validate_threshold Checks.true_when_set Checks.agree_when_set
    Normalize.normalize_string_map Sorting.sort_strings Sorting.str_lt Sorting.sort
    Sorting.insert_sorted trim_space Value.set Value.get Number.to_float64 increment
opened = tt

same_id_twice :
    compile no_print fixed
      (some (record refund_policy { rules = one_approval ∷ one_approval ∷ [] }))
    ≡ err duplicate_id
unfolding opened
same_id_twice = refl

abbrev compiled_rules : List CanonicalRule
compiled_rules =
    (record {
      id = "approved";
      category = "required";
      severity = "medium";
      spec = field "action" (str "approve") (field "min" (int (pos 1)) end);
    })
    ∷ (record {
      id = "no-refund";
      category = "forbidden";
      severity = "high";
      spec =
          field "action" (str "refund")
            (field "after" (str "close") (field "without_predecessor" (str "approve") end));
    })
    ∷ []

abbrev compiled : CompileResult
compiled = record {
  policy = record {
    schema = "intentproof.policy.v1";
    policy_id = "acme.refunds";
    policy_version = pos 1;
    tenant_id = "acme";
    name = "Refunds";
    description = "";
    spec_version = "1.0.0";
    any_event_action_in = "close" ∷ "refund" ∷ [];
    rules = compiled_rules;
    policy_fingerprint = "sha256:00";
  };
  fingerprint = "sha256:00";
  rule_counts = ("forbidden", 1) ∷ ("required", 1) ∷ [];
}

compile-Accepted_example : Accepted no_print fixed refund_policy compiled
unfolding opened
compile-Accepted_example = compile-Accepted no_print fixed refund_policy compiled refl

compile_complete_example :
    (result : CompileResult) × (compile no_print fixed (some refund_policy) ≡ ok result)
    × (result.policy.rules ≡ compiled_rules)
    × (result.fingerprint ≡ "sha256:00")
    × (result.policy.policy_fingerprint ≡ "sha256:00")
unfolding opened
compile_complete_example =
    compile_complete no_print fixed refund_policy compiled_rules "sha256:00"
      (ne-of-eq-false _ _ refl) (ne-of-eq-false _ _ refl) refl refl (refl, (refl, tt))
      (
        (λ i. elim i [ inl q ↦ ne-of-eq-false "approved" "no-refund" refl q | inr j ↦ j ]),
        ((λ i. i), tt),
      )
      refl

abbrev two : Float64
two = record { units = pos (2 * 2 ^ 1074) }

abbrev amount_rule : YamlRule
amount_rule = record blank {
  category = "value_bound";
  claim = "amount";
  operator = " lte";
  value = float64 two;
}

abbrev amount_spec : Rule
amount_spec = record {
  id = "r";
  category = "value_bound";
  severity = "high";
  spec =
      field "claim" (str "amount") (field "operator" (str "lte") (field "value" (float64 two) end));
}

abbrev amount_compiled : CanonicalRule
amount_compiled = record {
  id = "r";
  category = "value_bound";
  severity = "medium";
  spec = amount_spec.spec;
}

abbrev paid : Attestation
paid = record {
  attestation_id = "a1";
  source_id = "bank";
  claim = "amount";
  claim_value = float64 two;
  subject = end;
}

compiled_value_bound_decides_example :
    (bound : Float64) × (Number.to_float64 (float64 two) ≡ some bound)
    × Decides (evaluate_value_bound amount_spec (paid ∷ [])) (
        (a : Attestation)
        → In a (attested amount_spec (paid ∷ []))
        → Holds (trim_space " lte") bound a)
unfolding opened Filters.filter_attestations Filters.attestation_matches
compiled_value_bound_decides_example =
    compiled_value_bound_decides no_print amount_rule amount_compiled amount_spec (paid ∷ []) refl
      refl refl refl (λ q. absurd (false≢true (ap is_empty q)))

abbrev forbidden_spec : Rule
forbidden_spec = record {
  id = "no-refund";
  category = "forbidden";
  severity = "high";
  spec =
      field "action" (str "refund")
        (field "after" (str "close") (field "without_predecessor" (str "approve") end));
}

abbrev forbidden_compiled : CanonicalRule
forbidden_compiled = record {
  id = "no-refund";
  category = "forbidden";
  severity = "high";
  spec = forbidden_spec.spec;
}

abbrev refunded : List Event
refunded =
    (record {
      event_id = "e1";
      action = "refund";
      status = "ok";
      started_at = "2026-05-12T00:00:00Z";
      completed_at = "2026-05-12T00:00:05Z";
      attributes = end;
    })
    ∷ []

compiled_without_predecessor_example :
    (get "without_predecessor" forbidden_spec.spec ≡ some (str "approve"))
    × Forbids
        (evaluate_forbidden forbidden_spec refunded)
        (SomeAfter (filter_events refunded "close" none) (selected forbidden_spec refunded))
unfolding opened
compiled_without_predecessor_example =
    compiled_without_predecessor no_print no_refund_after_close forbidden_compiled forbidden_spec
      refunded refl refl (ne-of-eq-false _ _ refl) refl refl
