-- ===== src/Scenarios/Explanations.antt =====
-- An explanation of the bundle of Scenarios/Bundles, and the ids of two attestations.
use intentproof_tools.Prelude.{
  ◌%◌, [], ◌∷◌, ◌≡◌, ◌≢◌, ◌↔◌, refl, ◌⊎◌, none, some, String, ok, length, take, arith,
}
use intentproof_tools.Prelude.Int.{pos}
use intentproof_tools.Merkle.{Bytes}
use intentproof_tools.Value.{end}
use intentproof_tools.Verifier.Run.{Env as RunEnv, Flow, PolicyDoc, VerificationRun}
use intentproof_tools.Verifier.Verify.{
  validate_declared_policy_fingerprint, tenants_agree, parse_attestations, assemble, status_of,
  run_rules,
}
use intentproof_tools.Bundle.{Bundle, Manifest}
use intentproof_tools.Bundle.Read.{read_from_tar}
use intentproof_tools.Bundle.Verify.Verified.{Verified}
use intentproof_tools.Bundle.Replay.{Printers, replay_policy}
use intentproof_tools.Bundle.Explain.{explain_from_reader}
use intentproof_tools.Bundle.Explain.ExitCode.{Passes, AllPass, exit_code_iff, exit_code-Verified}
use intentproof_tools.Attestation.{derive_attestation_id, seed}
use intentproof_tools.Attestation.Ids.{derive_attestation_id-injective}
use intentproof_tools.Scenarios.Bundles.{env, decoders, created}

abbrev flow : Flow
flow = record { flow_id = "f1"; tenant_id = "acme"; flow_merkle_root = "sha256:00"; events = [] }

abbrev policy : PolicyDoc
policy = record {
  policy_id = "acme.refund";
  policy_version = pos 1;
  tenant_id = "acme";
  policy_fingerprint = "";
  rules = [];
}

abbrev run_env : RunEnv
run_env = record {
  decode_flow = λ _. some flow;
  decode_policy = λ _. some policy;
  decode_fields = λ _. some end;
  decode_attestation = λ _. none;
  compute_fingerprint = λ _. none;
  compute_run_fingerprint = λ _. some "run_fp";
  canonical_claim_value_key = λ _. "k";
  parse_iso_duration = λ _. none;
  sha256 = λ x. x;
  started = "t0";
  completed = "t1";
}

abbrev printers : Printers
printers = record { marshal_map = λ m. some []; text = λ b. ""; human_summary = λ f. "" }

explains :
    (explain_from_reader env decoders run_env printers created none).explanation
    ≡ "✓ pass: bundle.verify_pass (bundle integrity)\n\nPolicy replay:\n  status: pass\n"
unfolding explain_from_reader validate_declared_policy_fingerprint tenants_agree parse_attestations
    assemble status_of run_rules
explains = refl

exit_code_iff_example :
    ((explain_from_reader env decoders run_env printers created none).exit_code ≡ 0)
    ↔ Passes env decoders run_env printers created
exit_code_iff_example = exit_code_iff env decoders run_env printers created none

exit_code-Verified_example :
    (b : Bundle) × (m : Manifest) × (run : VerificationRun) × (read_from_tar decoders created
      ≡ ok b)
    × (b.manifest ≡ some m)
    × Verified env b m []
    × (replay_policy printers run_env b ≡ ok run)
    × AllPass run.findings
unfolding explain_from_reader validate_declared_policy_fingerprint tenants_agree parse_attestations
    assemble status_of run_rules
exit_code-Verified_example = exit_code-Verified env decoders run_env printers created none refl

abbrev tenant : String
tenant = "acme"

abbrev bank : String
bank = "bank"

abbrev first : String
first = "e1"

abbrev second : String
second = "e2"

abbrev short_hash : Bytes → Bytes
short_hash m = length m % 256 ∷ []

-- A hash of the length alone gives two events one id.
derive_attestation_id-injective_example :
    ((tenant ≡ tenant) × (bank ≡ bank) × (first ≡ second))
    ⊎ ((seed tenant bank first ≢ seed tenant bank second)
        × (take 12 (short_hash (seed tenant bank first))
            ≡ take 12 (short_hash (seed tenant bank second))))
unfolding derive_attestation_id
derive_attestation_id-injective_example =
    derive_attestation_id-injective short_hash (λ m. (omega arith, tt)) tenant bank first tenant
      bank second refl

-- The seed of a text with an escape.
seed_runs :
    seed "<" "b" ""
    ≡ 1 ∷ 91 ∷ 34 ∷ 92 ∷ 117 ∷ 48 ∷ 48 ∷ 51 ∷ 99 ∷ 34 ∷ 44 ∷ 34 ∷ 98 ∷ 34 ∷ 44 ∷ 34 ∷ 34 ∷ 93 ∷ []
unfolding seed
seed_runs = refl
