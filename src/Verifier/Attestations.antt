-- ===== src/Verifier/Attestations.antt =====
-- The evaluators of pkg/verifier that read attestations, rule_value_bound.go and rule_claim_match.go.
pub mod Bounds
use intentproof_tools.Prelude.{
  ℕ, suc, String, List, [], ◌∷◌, map, Bool, true, false, not, ◌&&◌, ◌||◌, Option, none, some, ltb,
  ◌==◌, Eq-ℕ, Eq-String, if◌then◌else◌, length, is_empty, count_if,
}
use intentproof_tools.Value.{Value, Fields, null, get, as_string, or_empty}
use intentproof_tools.Value.{Float64}
use intentproof_tools.Value.Number.{eq_float, lt_float, to_float64, values_equal}
use intentproof_tools.Verifier.Types.{Attestation, Rule, Finding, finding, pass, fail, inconclusive}
use intentproof_tools.Verifier.Filters.{filter_attestations}
use intentproof_tools.Verifier.Events.{spec_string}

unfoldable pub attestation_ids : List Attestation → List String
attestation_ids = map (λ a. a.attestation_id)

unfoldable pub is_valid_value_bound_operator : String → Bool
is_valid_value_bound_operator op =
    op == "lt" || op == "lte" || op == "gt" || op == "gte" || op == "eq" || op == "ne"

unfoldable pub compare_value_bound : Float64 → String → Float64 → Bool
compare_value_bound value operator bound =
    if operator == "lt"
    then lt_float value bound
    else if operator == "lte"
    then not (lt_float bound value)
    else if operator == "gt"
    then lt_float bound value
    else if operator == "gte"
    then not (lt_float value bound)
    else if operator == "eq"
    then eq_float value bound
    else if operator == "ne"
    then not (eq_float value bound)
    else false

-- The two ways to count a failure in the loop of `evaluateValueBound`.
unfoldable pub violates_bound : String → Float64 → Attestation → Bool
violates_bound operator bound a = elim (to_float64 a.claim_value) [
  | none ↦ true
  | some num ↦ not (compare_value_bound num operator bound)
]

-- The rest of `evaluateValueBound`, from the test of the bound.
bound_verdict : Option Float64 → Rule → List Attestation → Finding
bound_verdict none r matched = finding r inconclusive "inconclusive.value_bound.bound_invalid" [] []
bound_verdict (some bound) r matched =
    if is_empty matched
    then finding r inconclusive "inconclusive.value_bound.claim_missing" [] []
    else if ltb 0 (count_if (violates_bound (spec_string r "operator") bound) matched)
    then finding r fail "fail.value_bound.out_of_range" [] (attestation_ids matched)
    else finding r pass "pass.value_bound.satisfied" [] (attestation_ids matched)

-- The attestations that a rule selects.
abbrev pub attested : Rule → List Attestation → List Attestation
attested r atts = filter_attestations atts (spec_string r "claim") (spec_string r "source_id")

-- `toFloat64(spec["value"])`
abbrev pub bound_value : Rule → Option Float64
bound_value r = elim (get "value" r.spec) [ none ↦ none | some v ↦ to_float64 v ]

unfoldable pub evaluate_value_bound : Rule → List Attestation → Finding
unfolding bound_verdict
evaluate_value_bound r atts =
    if spec_string r "claim" == "" || spec_string r "operator" == ""
    then finding r inconclusive "inconclusive.value_bound.claim_missing" [] []
    else if not (is_valid_value_bound_operator (spec_string r "operator"))
    then finding r inconclusive "inconclusive.value_bound.operator_unsupported" [] []
    else bound_verdict (bound_value r) r (attested r atts)

-- A missing field and a JSON null are both nil.
abbrev pub not_nil : Option Value → Option Value
not_nil none = none
not_nil (some null) = none
not_nil (some v) = some v

match_verdict : Option Value → Rule → List Attestation → Finding
match_verdict none r matched =
    finding r inconclusive "inconclusive.claim_match.expected_missing" [] []
match_verdict (some expected) r matched =
    if is_empty matched
    then finding r inconclusive "inconclusive.claim_match.claim_missing" [] []
    else if ltb 0 (count_if (λ a. not (values_equal a.claim_value expected)) matched)
    then finding r fail "fail.claim_match.mismatch" [] (attestation_ids matched)
    else finding r pass "pass.claim_match.matched" [] (attestation_ids matched)

unfoldable pub evaluate_claim_match : Rule → List Attestation → Finding
unfolding match_verdict
evaluate_claim_match r atts =
    if spec_string r "claim" == ""
    then finding r inconclusive "inconclusive.claim_match.claim_missing" [] []
    else match_verdict (not_nil (get "expected_value" r.spec)) r (attested r atts)
