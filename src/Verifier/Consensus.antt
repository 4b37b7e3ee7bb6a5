-- ===== src/Verifier/Consensus.antt =====
-- The evaluator of rule_consensus.go (pkg/verifier).
pub mod Groups
pub mod Thresholds
use intentproof_tools.Prelude.{
  ℕ, suc, ◌/◌, String, List, [], ◌∷◌, ◌++◌, map, Bool, true, false, not, ◌&&◌, ◌||◌, Option, none,
  some, ltb, ◌==◌, Eq-ℕ, Eq-String, if◌then◌else◌, length, is_empty, any, all, keep, count_if,
}
use intentproof_tools.Prelude.Int.{ℤ, pos, ltb_ℤ}
use intentproof_tools.Prelude.Sorting.{str_lt, sort_strings}
use intentproof_tools.Value.{
  Value, obj, Items, Fields, end, get, items, keys, as_string, as_bool, as_items, as_fields,
  or_empty,
}
use intentproof_tools.Value.Number.{values_equal, validate_agree_at_least, Checked, ok, err}
use intentproof_tools.Verifier.Types.{Attestation, Rule, Finding, finding, pass, fail, inconclusive}
use intentproof_tools.Verifier.Events.{spec_string, spec_fields}
use intentproof_tools.Verifier.Attestations.{attestation_ids, not_nil}

-- A name that is set is one more allowed source.
add_name : String → List String → List String
add_name name names = if name == "" then names else name ∷ names

source_names : List Value → List String
unfolding add_name
source_names [] = []
source_names (obj s ∷ sources) =
    add_name (or_empty (as_string (get "source_id" s)))
      (add_name (or_empty (as_string (get "action" s))) (source_names sources))
source_names (_ ∷ sources) = source_names sources

source_items : Option Items → List Value
source_items none = []
source_items (some vs) = items vs

unfoldable pub allowed_sources : Rule → List String
unfolding source_names source_items
allowed_sources r = source_names (source_items (as_items (get "sources" r.spec)))

unfoldable pub is_witness : Rule → Attestation → Bool
is_witness r a =
    a.claim == spec_string r "claim"
    && (is_empty (allowed_sources r) || any (λ s. s == a.source_id) (allowed_sources r))

unfoldable pub witnesses : Rule → List Attestation → List Attestation
witnesses r atts = keep (is_witness r) atts

-- The groups of attestation ids by claim value.
abbrev pub Groups : Type 0
Groups = List (String × List String)

unfoldable pub add_to_group : String → String → Groups → Groups
add_to_group key id [] = (key, id ∷ []) ∷ []
add_to_group key id ((k, ids) ∷ groups) =
    if k == key then (k, ids ++ id ∷ []) ∷ groups else (k, ids) ∷ add_to_group key id groups

unfoldable pub group_of : String → Groups → List String
group_of key [] = []
group_of key ((k, ids) ∷ groups) = if k == key then ids else group_of key groups

unfoldable pub group_from : (Value → String) → Groups → List Attestation → Groups
group_from claim_key groups [] = groups
group_from claim_key groups (a ∷ atts) =
    group_from claim_key (add_to_group (claim_key a.claim_value) a.attestation_id groups) atts

-- A group that is larger than the largest so far, or as large with a smaller key.
unfoldable pub better : Groups → String → ℕ → String → Bool
better groups max_key max_count k =
    let n = length (group_of k groups) in
    ltb max_count n || (n == max_count && (max_key == "" || str_lt k max_key))

-- The loop over the sorted keys, with `maxKey` and `maxCount`.
unfoldable pub largest : Groups → String → ℕ → List String → String × ℕ
unfolding better
largest groups max_key max_count [] = (max_key, max_count)
largest groups max_key max_count (k ∷ ks) =
    let b = better groups max_key max_count k in
    largest groups (if b then k else max_key) (if b then length (group_of k groups) else max_count)
      ks

-- How many attestations agree, and which.
pub record Agreement : Type 0 where
  pub agree_count : ℕ
  pub evidence : List String

unfoldable pub agreement : (Value → String) → Option Value → List Attestation → Agreement
agreement claim_key (some expected) matched =
    let agreeing = keep (λ a. values_equal a.claim_value expected) matched in
    record { agree_count = length agreeing; evidence = attestation_ids agreeing }
agreement claim_key none matched =
    let groups = group_from claim_key [] matched in
    let (max_key, max_count) = largest groups "" 0 (sort_strings (map (λ g. g.0) groups)) in
    record { agree_count = max_count; evidence = group_of max_key groups }

unfoldable pub is_operator : String → Bool
is_operator k = k == "unanimous" || k == "majority" || k == "agree_at_least"

-- The verdict once an operator asks for agreement.
agreed : Rule → Bool → List String → Finding
agreed r met evidence =
    if met
    then finding r pass "pass.consensus.threshold_met" [] evidence
    else finding r fail "fail.consensus.disagreement" [] evidence

-- An operator that is set to false does not activate the rule.
activated : Rule → Bool → Bool → List String → Finding
activated r on met evidence =
    if on then agreed r met evidence else finding r fail "fail.consensus.threshold_unmet" [] []

checked_least : Rule → Checked → Agreement → Finding
checked_least r (err e) a = finding r fail "fail.consensus.insufficient" [] []
checked_least r (ok min) a = agreed r (not (ltb_ℤ (pos a.agree_count) min)) a.evidence

at_least : Rule → Option Value → Agreement → Finding
unfolding checked_least
at_least r none a = finding r fail "fail.consensus.insufficient" [] []
at_least r (some v) a = checked_least r (validate_agree_at_least v) a

apply_threshold : Rule → Option Bool → Option Bool → Option Value → ℕ → Agreement → Finding
unfolding agreed activated at_least
apply_threshold r (some on) majority least n a =
    activated r on (a.agree_count == n && ltb 0 n) a.evidence
apply_threshold r none (some on) least n a = activated r on (ltb (n / 2) a.agree_count) a.evidence
apply_threshold r none none least n a = at_least r least a

-- `len(threshold) == 0` holds of a missing threshold too.
threshold_of : Option Fields → Fields
threshold_of none = end
threshold_of (some t) = t

check_threshold : Rule → Fields → ℕ → Agreement → Finding
unfolding apply_threshold
check_threshold r t n a =
    if is_empty (keys t)
    then finding r fail "fail.consensus.threshold_unmet" [] []
    else if not (all is_operator (keys t))
    then finding r fail "fail.consensus.insufficient" [] []
    else if not (count_if is_operator (keys t) == 1)
    then finding r fail "fail.consensus.insufficient" [] []
    else apply_threshold r (as_bool (get "unanimous" t)) (as_bool (get "majority" t))
        (get "agree_at_least" t) n a

-- `claim_key` stands for `canonicalClaimValueKey`.
unfoldable pub evaluate_consensus : (Value → String) → Rule → List Attestation → Finding
unfolding check_threshold threshold_of
evaluate_consensus claim_key r atts =
    let matched = witnesses r atts in
    if spec_string r "claim" == ""
    then finding r inconclusive "inconclusive.consensus.claim_missing" [] []
    else if is_empty matched
    then finding r fail "fail.consensus.insufficient" [] []
    else check_threshold r (threshold_of (spec_fields r "threshold")) (length matched)
        (agreement claim_key (not_nil (get "expected_value" r.spec)) matched)
