-- ===== src/Policy/Conformance.antt =====
-- Compiled rules (pkg/policy/compiler.go) under the evaluators of pkg/verifier.
pub mod Forbidden
use text.Mathlib.TextEquality.{eq_iff}
use intentproof_tools.Prelude.{
  String, List, [], In, ◌≡◌, ◌≢◌, refl, sym, ap, subst, ◌∙◌, Bool, true, false, not, ◌&&◌, ◌||◌,
  Option, none, some, ◌==◌, eq-false, ne-of-eq-false, Eq-String, if◌then◌else◌, trim_space, ok,
  bind-ok, then-ok, guard, guard-ok, guard-not-ok, or_err-ok, or_err, ok-injective, arith,
}
use intentproof_tools.Value.{
  Value, Fields, Float64, get, set, str, obj, float64, end, or_empty, as_string,
}
use intentproof_tools.Value.Number.{to_float64}
use intentproof_tools.Value.Lookup.{get-set}
use intentproof_tools.Policy.Input.{
  YamlRule, CanonicalRule, needs_id, needs_category, unknown_category, needs_claim, needs_operator,
  unsupported_operator, needs_number,
}
use intentproof_tools.Policy.Checks.{
  is_value_bound_operator, validate_severity, is_known_rule_category,
}
use intentproof_tools.Policy.CompileRule.{
  rule_category, rule_severity, compile_spec, rule_spec, compile_rule,
}
use intentproof_tools.Policy.Shorthand.{no_fields, set_text, compile_value_bound, compile_forbidden}
use intentproof_tools.Verifier.Types.{Rule, Attestation, Event, Decides}
use intentproof_tools.Verifier.Attestations.{
  is_valid_value_bound_operator, bound_value, attested, evaluate_value_bound,
}
use intentproof_tools.Verifier.Attestations.Bounds.{Holds, value_bound_decides}
use intentproof_tools.Verifier.Events.{spec_string, spec_fields, evaluate_forbidden}

pub get-set_text :
    (k j s : String) (m : Fields)
    → get k (set_text j s m) ≡ (if j == k && not (s == "") then some (str s) else get k m)
unfolding set_text
get-set_text k j s m = ground (arith, get-set k j (str s) m)

abbrev text_at : Option Value → String
text_at o = or_empty (as_string o)

abbrev number_at : Option Value → Option Float64
number_at o = elim o [ none ↦ none | some v ↦ to_float64 v ]

same_operators :
    (op : String) → is_value_bound_operator op ≡ true → is_valid_value_bound_operator op ≡ true
unfolding is_value_bound_operator is_valid_value_bound_operator
same_operators op h = ground (
  arith,
  eq_iff op "lt",
  eq_iff op "lte",
  eq_iff op "gt",
  eq_iff op "gte",
  eq_iff op "eq",
  eq_iff op "ne",
  eq_iff "lt" op,
  eq_iff "lte" op,
  eq_iff "gt" op,
  eq_iff "gte" op,
  eq_iff "eq" op,
  eq_iff "ne" op,
)

module _ (sprint : Value → String) where
  -- The spec of a compiled value_bound rule.
  record BoundSpec (r : YamlRule) (spec : Fields) : Type 0 where
    bound : Float64
    numeric : to_float64 r.value ≡ some bound
    claim_given : r.claim ≢ ""
    supported : is_value_bound_operator (trim_space r.operator) ≡ true
    claim_at : get "claim" spec ≡ some (str r.claim)
    operator_at : get "operator" spec ≡ some (str (trim_space r.operator))
    bound_at : get "value" spec ≡ some (float64 bound)

  compile_value_bound-BoundSpec :
      (r : YamlRule) (spec : Fields) → compile_value_bound sprint r ≡ ok spec → BoundSpec r spec
  unfolding compile_value_bound get set
  compile_value_bound-BoundSpec r spec h =
      let operator = trim_space r.operator in
      let (e, h₁) = then-ok (guard (not (r.claim == "")) needs_claim) _ spec h in
      let (e₁, h₂) = then-ok (guard (not (operator == "")) needs_operator) _ spec h₁ in
      let (e₂, h₃) =
        then-ok (guard (is_value_bound_operator operator) unsupported_operator) _ spec h₂ in
      let (bound, e₃, h₄) = bind-ok (or_err (to_float64 r.value) needs_number) _ spec h₃ in
      let i = ok-injective h₄ in
      record {
        bound = bound;
        numeric = or_err-ok _ needs_number bound e₃;
        claim_given = ne-of-eq-false r.claim "" (guard-not-ok _ needs_claim e);
        supported = guard-ok _ unsupported_operator e₂;
        claim_at = ap (get "claim") (sym i) ∙ get-set_text "claim" "source_id" r.source_id _;
        operator_at =
            ap (get "operator") (sym i) ∙ get-set_text "operator" "source_id" r.source_id _;
        bound_at = ap (get "value") (sym i) ∙ get-set_text "value" "source_id" r.source_id _;
      }

  rule_spec-shorthand :
      (r : YamlRule)
      → no_fields r.spec ≡ true
      → rule_spec sprint r ≡ compile_spec sprint (rule_category r) r
  unfolding rule_spec
  rule_spec-shorthand r n = rw n refl

  -- A rule without a spec of its own is compiled by the switch over the categories.
  pub compile_rule-shorthand :
      (r : YamlRule) (c : CanonicalRule)
      → no_fields r.spec ≡ true
      → compile_rule sprint r ≡ ok c
      → compile_spec sprint (rule_category r) r ≡ ok c.spec
  unfolding compile_rule
  compile_rule-shorthand r c n h =
      let (_, h₁) = then-ok (guard (not (trim_space r.id == "")) needs_id) _ c h in
      let (_, h₂) = then-ok (guard (not (rule_category r == "")) needs_category) _ c h₁ in
      let (_, h₃) = then-ok (validate_severity (rule_severity r)) _ c h₂ in
      let (_, h₄) =
        then-ok (guard (is_known_rule_category (rule_category r)) unknown_category) _ c h₃ in
      let (spec, e, h₅) = bind-ok (rule_spec sprint r) _ c h₄ in
      sym (rule_spec-shorthand r n)
      ∙ e
      ∙ ap ok (ap (λ (k : CanonicalRule). k.spec) (ok-injective h₅))

  -- A value_bound rule in shorthand, without a spec of its own, that the compiler accepts is decided by the
  -- verifier on every list of attestations from which it selects some: it passes just if all of those claim
  -- a number within the bound of the document, and fails otherwise.
  pub compiled_value_bound_decides :
      (r : YamlRule) (c : CanonicalRule) (rule : Rule) (atts : List Attestation)
      → no_fields r.spec ≡ true
      → rule_category r ≡ "value_bound"
      → compile_rule sprint r ≡ ok c
      → rule.spec ≡ c.spec
      → attested rule atts ≢ []
      → (bound : Float64) × (to_float64 r.value ≡ some bound)
        × Decides
            (evaluate_value_bound rule atts)
            ((a : Attestation) → In a (attested rule atts) → Holds (trim_space r.operator) bound a)
  unfolding to_float64 compile_spec
  compiled_value_bound_decides r c rule atts short category compiled same n =
      let spec = compile_rule-shorthand r c short compiled in
      let h : compile_value_bound sprint r ≡ ok rule.spec =
        subst (λ k. compile_spec sprint k r ≡ ok c.spec) category spec ∙ ap ok (sym same) in
      let s = compile_value_bound-BoundSpec r rule.spec h in
      let claim : spec_string rule "claim" ≡ r.claim = ap text_at s.claim_at in
      let operator : spec_string rule "operator" ≡ trim_space r.operator =
        ap text_at s.operator_at in
      let decided =
        value_bound_decides rule atts (λ q. s.claim_given (sym claim ∙ q))
          (ap is_valid_value_bound_operator operator ∙ same_operators _ s.supported)
          (ap number_at s.bound_at) n in
      (
        s.bound,
        s.numeric,
        subst
            (λ op.
              Decides (evaluate_value_bound rule atts)
                ((a : Attestation) → In a (attested rule atts) → Holds op s.bound a))
            operator decided,
      )
