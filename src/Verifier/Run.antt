-- ===== src/Verifier/Run.antt =====
-- The run that `Verify` makes and what it is made of (pkg/verifier/types.go, verify.go).
use intentproof_tools.Prelude.{Counts, ℕ, String, List, Option}
use intentproof_tools.Prelude.Int.{ℤ}
use intentproof_tools.Merkle.{Bytes}
use intentproof_tools.Value.{Value, Fields}
use intentproof_tools.Verifier.Types.{Event, Attestation, Rule, Finding, Outcome}

pub record Flow : Type 0 where
  pub flow_id : String
  pub tenant_id : String
  pub flow_merkle_root : String
  pub events : List Event

pub record PolicyDoc : Type 0 where
  pub policy_id : String
  pub policy_version : ℤ
  pub tenant_id : String
  pub policy_fingerprint : String
  pub rules : List Rule

pub record AttestationSet : Type 0 where
  pub ids : List String
  pub merkle_root : String

pub record OutcomeCounts : Type 0 where
  pub passed : ℕ
  pub failed : ℕ
  pub undecided : ℕ

-- The map from a severity to its count.
pub record Summary : Type 0 where
  pub outcome_counts : OutcomeCounts
  pub severity_counts : Counts

pub record VerificationRun : Type 0 where
  pub run_id : String
  pub tenant_id : String
  pub flow_id : String
  pub flow_merkle_root : String
  pub policy_id : String
  pub policy_version : ℤ
  pub policy_fingerprint : String
  pub attestation_set : AttestationSet
  pub started_at : String
  pub completed_at : String
  pub status : Outcome
  pub summary : Summary
  pub findings : List Finding
  pub run_fingerprint : String

-- What `Verify` calls: the decoders of encoding/json, the clock, SHA-256, and the parts of the
-- program that are parameters of this model.
pub record Env : Type 0 where
  pub decode_flow : String → Option Flow
  pub decode_policy : String → Option PolicyDoc
  pub decode_fields : String → Option Fields
  pub decode_attestation : String → Option Attestation
  pub compute_fingerprint : Fields → Option String
  pub compute_run_fingerprint : VerificationRun → Option String
  pub canonical_claim_value_key : Value → String
  pub parse_iso_duration : String → Option ℤ
  pub sha256 : Bytes → Bytes
  pub started : String
  pub completed : String

pub data VerifyError : Type 0 where
  parse_flow parse_policy parse_policy_map fingerprint fingerprint_mismatch : VerifyError
  tenant_mismatch parse_attestation run_fingerprint_failed : VerifyError
