-- ===== src/Scenarios/Attested.antt =====
-- The evaluators of pkg/verifier that read attestations, on three attestations of a refund.
use intentproof_tools.Prelude.{
  ℕ, ◌≡◌, refl, String, List, [], ◌∷◌, true, false, none, length, In, ne-of-eq-false,
}
use intentproof_tools.Prelude.Int.{pos}
use intentproof_tools.Prelude.Sorting
use intentproof_tools.Value
use intentproof_tools.Value.{Value, Fields, Float64, bool, str, float64, obj, end, field}
use intentproof_tools.Value.Number
use intentproof_tools.Value.Number.{values_equal}
use intentproof_tools.Verifier.Types.{Rule, Attestation, finding, pass, fail, Decides}
use intentproof_tools.Verifier.Filters
use intentproof_tools.Verifier.Attestations
use intentproof_tools.Verifier.Attestations.Bounds.{Holds, value_bound_decides}
use intentproof_tools.Verifier.Consensus
use intentproof_tools.Verifier.Consensus.Groups.{IsLargestGroup, agreement-IsLargestGroup}
use intentproof_tools.Verifier.Consensus.Thresholds.{majority, Met, consensus_decides}

abbrev attestation : String → String → Value → Attestation
attestation id source value = record {
  attestation_id = id;
  source_id = source;
  claim = "amount";
  claim_value = value;
  subject = end;
}

-- A number, in units of 2 ^ -1074.
abbrev number : ℕ → Value
number n = float64 (record { units = pos n })

abbrev atts : List Attestation
atts =
    attestation "a1" "stripe" (number 5)
    ∷ attestation "a2" "bank" (number 5)
    ∷ attestation "a3" "ledger" (number 7)
    ∷ []

abbrev rule : String → Fields → Rule
rule category spec = record { id = "r"; category = category; severity = "high"; spec = spec }

-- What a run of the evaluators computes with.
abbrev opened : Unit {0}
unfolding Value.get Value.keys Value.items Value.eq_ℤ Number.to_float64 Number.values_equal
    Number.validate_agree_at_least finding Filters.filter_attestations Filters.attestation_matches
    Attestations.attestation_ids Attestations.is_valid_value_bound_operator
    Attestations.compare_value_bound Attestations.violates_bound Attestations.evaluate_value_bound
    Attestations.evaluate_claim_match Consensus.allowed_sources Consensus.is_witness
    Consensus.witnesses Consensus.add_to_group Consensus.group_of Consensus.group_from
    Consensus.largest Consensus.agreement Consensus.is_operator Consensus.evaluate_consensus
    Sorting.sort_strings
opened = tt

abbrev at_most_six : Rule
at_most_six =
    rule "value_bound"
      (field "claim" (str "amount") (field "operator" (str "lte") (field "value" (number 6) end)))

value_bound_runs : (Attestations.evaluate_value_bound at_most_six atts).outcome ≡ fail
unfolding opened
value_bound_runs = refl

value_bound_decides_example : Decides (Attestations.evaluate_value_bound at_most_six atts) (
    (a : Attestation)
    → In a (Attestations.attested at_most_six atts)
    → Holds "lte" (record { units = pos 6 }) a)
unfolding opened
value_bound_decides_example =
    value_bound_decides at_most_six atts (ne-of-eq-false "amount" "" refl) refl refl (λ e. cc)

abbrev always_five : Rule
always_five = rule "claim_match" (
    field "claim" (str "amount")
      (field "expected_value" (number 5) (field "source_id" (str "bank") end)))

claim_match_runs : (Attestations.evaluate_claim_match always_five atts).outcome ≡ pass
unfolding opened
claim_match_runs = refl

-- Five and seven get different keys.
abbrev claim_key : Value → String
claim_key v = elim (values_equal v (number 5)) [ true ↦ "5" | false ↦ "7" ]

agreement-IsLargestGroup_example :
    IsLargestGroup claim_key atts (Consensus.agreement claim_key none atts)
agreement-IsLargestGroup_example = agreement-IsLargestGroup claim_key atts

abbrev most_agree : Rule
most_agree =
    rule "consensus" (
      field "claim" (str "amount") (field "threshold" (obj (field "majority" (bool true) end)) end))

consensus_runs :
    (Consensus.evaluate_consensus claim_key most_agree atts).evidence_attestation_ids
    ≡ "a1" ∷ "a2" ∷ []
unfolding opened
consensus_runs = refl

consensus_decides_example : Decides (Consensus.evaluate_consensus claim_key most_agree atts) (
    Met majority
      (length (Consensus.witnesses most_agree atts))
      (Consensus.agreement claim_key none (Consensus.witnesses most_agree atts)).agree_count)
unfolding opened
consensus_decides_example =
    consensus_decides claim_key most_agree atts majority (ne-of-eq-false "amount" "" refl) (λ e. cc)
      refl tt
