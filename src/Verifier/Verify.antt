-- ===== src/Verifier/Verify.antt =====
-- `Verify` of pkg/verifier/verify.go, `evaluateRule` of evaluate.go, and `computeMerkleRoot`.
pub mod Status
pub mod Accepts
pub mod IdOrder
pub mod Exactly
use Prim.Native.Char.{Char, code}
use Prim.Native.String.{◌++◌ as concat}
use intentproof_tools.Prelude.{
  ℕ, zero, suc, ◌+◌, String, List, [], ◌∷◌, ◌++◌, map, Bool, true, false, not, ◌&&◌, ◌||◌, Option,
  none, some, ltb, ◌==◌, Eq-ℕ, Eq-String, if◌then◌else◌, trim_space, Result, ok, err, ◌>>=◌, ◌>>◌,
  guard, or_err, Counts, increment,
}
use intentproof_tools.Prelude.Int.{ℤ}
use intentproof_tools.Prelude.Bytes.{bytes}
use intentproof_tools.Prelude.Sorting.{sort_strings}
use intentproof_tools.Merkle.{Bytes, root_hex}
use intentproof_tools.Value.{Value, Fields, get, null, str}
use intentproof_tools.Verifier.Types.{
  Event, Attestation, Rule, Finding, finding, Outcome, pass, fail, inconclusive,
}
use intentproof_tools.Verifier.Events.{
  evaluate_required, evaluate_forbidden, evaluate_ordering, evaluate_cardinality, evaluate_temporal,
}
use intentproof_tools.Verifier.Attestations.{
  attestation_ids, evaluate_value_bound, evaluate_claim_match,
}
use intentproof_tools.Verifier.Consensus.{evaluate_consensus}
pub use intentproof_tools.Verifier.Run.{
  Flow, PolicyDoc, AttestationSet, OutcomeCounts, Summary, VerificationRun, Env, VerifyError,
  parse_flow, parse_policy, parse_policy_map, fingerprint, fingerprint_mismatch, tenant_mismatch,
  parse_attestation, run_fingerprint_failed,
}

module _ (env : Env) where
  open env use {sha256, canonical_claim_value_key, parse_iso_duration, decode_attestation}

  unfoldable pub evaluate_rule : Rule → List Event → List Attestation → Finding
  evaluate_rule r events atts =
      if r.category == "required"
      then evaluate_required r events
      else if r.category == "forbidden"
      then evaluate_forbidden r events
      else if r.category == "ordering"
      then evaluate_ordering r events
      else if r.category == "cardinality"
      then evaluate_cardinality r events
      else if r.category == "temporal"
      then evaluate_temporal parse_iso_duration r events
      else if r.category == "consensus"
      then evaluate_consensus canonical_claim_value_key r atts
      else if r.category == "value_bound"
      then evaluate_value_bound r atts
      else if r.category == "claim_match"
      then evaluate_claim_match r atts
      else finding r inconclusive "inconclusive.unknown.unsupported_rule_category" [] []

  -- The ids are sorted in place, so that the run's list of ids is the sorted one.
  unfoldable pub attestation_set : List String → AttestationSet
  attestation_set ids =
      let sorted = sort_strings ids in
      record { ids = sorted; merkle_root = root_hex sha256 (map bytes sorted) }

unfoldable pub count_outcome : Outcome → OutcomeCounts → OutcomeCounts
count_outcome pass c = record c { passed = c.passed + 1 }
count_outcome fail c = record c { failed = c.failed + 1 }
count_outcome inconclusive c = record c { undecided = c.undecided + 1 }

abbrev pub zero_outcomes : OutcomeCounts
zero_outcomes = record { passed = 0; failed = 0; undecided = 0 }

abbrev pub zero_severities : Counts
zero_severities = ("critical", 0) ∷ ("high", 0) ∷ ("medium", 0) ∷ ("low", 0) ∷ ("info", 0) ∷ []

-- The variables of the loop over the rules.
pub record Tally : Type 0 where
  pub findings : List Finding
  pub outcomes : OutcomeCounts
  pub severities : Counts

-- The body of the loop.
unfoldable pub tally : Finding → Tally → Tally
tally f t = record {
  findings = t.findings ++ f ∷ [];
  outcomes = count_outcome f.outcome t.outcomes;
  severities = increment f.severity t.severities;
}

unfoldable pub run_rules : (Rule → Finding) → Tally → List Rule → Tally
run_rules evaluate t [] = t
run_rules evaluate t (r ∷ rules) = run_rules evaluate (tally (evaluate r) t) rules

abbrev pub no_findings : Tally
no_findings = record { findings = []; outcomes = zero_outcomes; severities = zero_severities }

unfoldable pub status_of : OutcomeCounts → Outcome
status_of c = if ltb 0 c.failed then fail else if ltb 0 c.undecided then inconclusive else pass

-- `strings.Split(s, "\n")`
abbrev cons_line : Char → List String → List String
cons_line c [] = String.◌∷◌ c String.[] ∷ []
cons_line c (line ∷ lines) = String.◌∷◌ c line ∷ lines

unfoldable pub split_lines : String → List String
split_lines String.[] = String.[] ∷ []
split_lines (String.◌∷◌ c s) =
    if code c == b'\n' then String.[] ∷ split_lines s else cons_line c (split_lines s)

unfoldable pub decode_lines :
    (String → Option Attestation) → List String → Result VerifyError (List Attestation)
unfolding trim_space
decode_lines decode [] = ok []
decode_lines decode (line ∷ lines) =
    let rest = decode_lines decode lines in
    if trim_space line == ""
    then rest
    else do a ← or_err (decode (trim_space line)) parse_attestation; atts ← rest; ok (a ∷ atts)

unfoldable pub parse_attestations :
    (String → Option Attestation) → String → Result VerifyError (List Attestation)
unfolding split_lines decode_lines
parse_attestations decode data_ =
    if data_ == "" then ok [] else decode_lines decode (split_lines (trim_space data_))

-- `validateDeclaredPolicyFingerprint`
check_fingerprint : (Fields → Option String) → Fields → Option Value → Result VerifyError (Unit {0})
check_fingerprint compute policy (some (str fp)) = if trim_space fp == "" then ok tt else do
  computed ← or_err (compute policy) fingerprint
  guard (fp == computed) fingerprint_mismatch
check_fingerprint compute policy _ = ok tt

unfoldable pub validate_declared_policy_fingerprint :
    (Fields → Option String) → Fields → Result VerifyError (Unit {0})
unfolding check_fingerprint trim_space
validate_declared_policy_fingerprint compute policy =
    check_fingerprint compute policy (get "policy_fingerprint" policy)

module _ (env : Env) where
  open env use {
    decode_flow, decode_policy, decode_fields, decode_attestation, compute_fingerprint,
    compute_run_fingerprint, started, completed,
  }

  -- The run without its fingerprint.
  unfoldable pub assemble : Flow → PolicyDoc → List Attestation → VerificationRun
  assemble flow policy atts =
      let t = run_rules (λ r. evaluate_rule env r flow.events atts) no_findings policy.rules in
      record {
        run_id = concat "run_" flow.flow_id;
        tenant_id = policy.tenant_id;
        flow_id = flow.flow_id;
        flow_merkle_root = flow.flow_merkle_root;
        policy_id = policy.policy_id;
        policy_version = policy.policy_version;
        policy_fingerprint = policy.policy_fingerprint;
        attestation_set = attestation_set env (attestation_ids atts);
        started_at = started;
        completed_at = completed;
        status = status_of t.outcomes;
        summary = record { outcome_counts = t.outcomes; severity_counts = t.severities };
        findings = t.findings;
        run_fingerprint = "";
      }

  unfoldable pub tenants_agree : Flow → PolicyDoc → Bool
  tenants_agree flow policy =
      flow.tenant_id == "" || policy.tenant_id == "" || flow.tenant_id == policy.tenant_id

  unfoldable pub verify : String → String → String → Result VerifyError VerificationRun
  verify flow_data policy_data attestations_data = do
    flow ← or_err (decode_flow flow_data) parse_flow
    policy ← or_err (decode_policy policy_data) parse_policy
    policy_raw ← or_err (decode_fields policy_data) parse_policy_map
    validate_declared_policy_fingerprint compute_fingerprint policy_raw
    guard (tenants_agree flow policy) tenant_mismatch
    atts ← parse_attestations decode_attestation attestations_data
    let run = assemble flow policy atts
    fp ← or_err (compute_run_fingerprint run) run_fingerprint_failed
    ok (record run { run_fingerprint = fp })
