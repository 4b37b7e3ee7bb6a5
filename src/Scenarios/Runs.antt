-- ===== src/Scenarios/Runs.antt =====
-- Whole runs of `Verify` (pkg/verifier), over a toy environment.
use intentproof_tools.Prelude.{ok, ◌≡◌, ◌↔◌, refl, [], ◌∷◌, none, some, trim_space}
use mathlib.Core.List.Perm
use intentproof_tools.Prelude.Int.{pos}
use intentproof_tools.Value
use intentproof_tools.Value.{Fields, end, field, str}
use intentproof_tools.Verifier.Types.{inconclusive, Attestation, finding}
use intentproof_tools.Verifier.Attestations.{attestation_ids}
use intentproof_tools.Verifier.Verify
use intentproof_tools.Verifier.Verify.{
  Env, Flow, PolicyDoc, fingerprint_mismatch, VerificationRun, verify, assemble, attestation_set,
  validate_declared_policy_fingerprint,
}
use intentproof_tools.Verifier.Verify.Accepts.{Accepted, verify-Accepted}
use intentproof_tools.Verifier.Verify.Exactly.{Acceptable, verify_iff}
use intentproof_tools.Verifier.Verify.IdOrder.{attestation_set-perm}

abbrev refund_flow : Flow
refund_flow = record {
  flow_id = "f1";
  tenant_id = "acme";
  flow_merkle_root = "sha256:00";
  events = [];
}

abbrev refund_policy : PolicyDoc
refund_policy = record {
  policy_id = "acme.refund";
  policy_version = pos 1;
  tenant_id = "acme";
  policy_fingerprint = "fp";
  rules = record { id = "r1"; category = "weather"; severity = "high"; spec = end } ∷ [];
}

abbrev toy_attestation : Attestation
toy_attestation = record {
  attestation_id = "a1";
  source_id = "bank";
  claim = "paid";
  claim_value = str "yes";
  subject = end;
}

abbrev policy_fields : Fields
policy_fields = field "policy_fingerprint" (str "fp") end

abbrev toy : Env
toy = record {
  decode_flow = λ _. some refund_flow;
  decode_policy = λ _. some refund_policy;
  decode_fields = λ _. some policy_fields;
  decode_attestation = λ _. some toy_attestation;
  compute_fingerprint = λ _. some "fp";
  compute_run_fingerprint = λ _. some "run_fp";
  canonical_claim_value_key = λ _. "k";
  parse_iso_duration = λ _. none;
  sha256 = λ x. x;
  started = "t0";
  completed = "t1";
}

abbrev toy_run : VerificationRun
toy_run = record (assemble toy refund_flow refund_policy (toy_attestation ∷ [])) {
  run_fingerprint = "run_fp";
}

-- What a run computes with.
abbrev opened : Unit {0}
unfolding Value.get Verify.parse_attestations Verify.validate_declared_policy_fingerprint
    Verify.tenants_agree trim_space
opened = tt

-- An unknown category leaves the run inconclusive.
unknown_category : toy_run.status ≡ inconclusive
unfolding assemble Verify.run_rules Verify.tally Verify.evaluate_rule Verify.status_of
    Verify.count_outcome finding
unknown_category = refl

verify-Accepted_example : Accepted toy "flow" "policy" "line" toy_run
unfolding opened verify
verify-Accepted_example = verify-Accepted toy "flow" "policy" "line" refl

abbrev second_attestation : Attestation
second_attestation = record toy_attestation { attestation_id = "a0" }

attestation_set-perm_example :
    attestation_set toy (attestation_ids (toy_attestation ∷ second_attestation ∷ []))
    ≡ attestation_set toy (attestation_ids (second_attestation ∷ toy_attestation ∷ []))
attestation_set-perm_example =
    attestation_set-perm toy (toy_attestation ∷ second_attestation ∷ [])
      (second_attestation ∷ toy_attestation ∷ []) (Perm.swap second_attestation toy_attestation [])

verify_iff_example :
    (((run : VerificationRun) × (verify toy "flow" "policy" "line" ≡ ok run))
      ↔ Acceptable toy "flow" "policy" "line")
    × ((run : VerificationRun)
        → verify toy "flow" "policy" "line" ≡ ok run
        → toy.compute_run_fingerprint (record run { run_fingerprint = "" })
          ≡ some run.run_fingerprint)
verify_iff_example = verify_iff toy "flow" "policy" "line" (λ run. ("run_fp", refl))
