-- ===== src/Bundle/Verify.antt =====
-- Verification of an extracted bundle (pkg/bundle/verify.go).
pub mod Fails
pub mod Passes
pub mod Verified
use intentproof_tools.Prelude.{
  Bool, true, false, not, ◌&&◌, ◌||◌, is_empty, any, List, [], ◌∷◌, ◌++◌, String, Option, none,
  some, ◌==◌, Eq-String, if◌then◌else◌, Result, err, ok, ◌>>=◌, trim_space, trim_prefix, has_suffix,
  ◌<>◌,
}
use intentproof_tools.Prelude.Bytes.{hex_decode}
use intentproof_tools.Merkle.{Bytes}
use intentproof_tools.Value.{Value, str, Fields, get}
use intentproof_tools.Policysig.{SignatureEnvelope}
use intentproof_tools.Policysig.Fingerprint.{compute_fingerprint}
use intentproof_tools.Canon.Encode.{MarshalError}
use intentproof_tools.Bundle.{
  Bundle, Manifest, ManifestEntry, VerifyResult, Env, BundleError, canonicalize_failed,
  policy_fingerprint_compute, policy_json_decode_failed, Stop, failed, returned, Step, fail, lookup,
  validate_verification_profile,
}
use intentproof_tools.Bundle.Manifests.{canonical_manifest_json, compute_item_merkle, sha256hex}
use intentproof_tools.Bundle.Signatures.{verify_object_signatures}

abbrev pub or_none : {A : Type 0} → Option (List A) → List A
or_none none = []
or_none (some xs) = xs

module _ (env : Env) where
  -- 1. The manifest's signature, if there is one and a key to verify it by.
  abbrev pub with_manifest_signature : Bytes → Bytes → List String → Option Bytes → Step
  with_manifest_signature pubkey canonical findings none =
      fail "bundle.signature_decode_failed" findings
  with_manifest_signature pubkey canonical findings (some sig) =
      if env.prims.ed25519_verify pubkey (env.prims.sha256 canonical) sig
      then ok (findings ++ "manifest.signature_valid" ∷ [])
      else fail "bundle.signature_invalid" (findings ++ "manifest.signature_invalid" ∷ [])

  abbrev pub with_manifest :
      Bytes → SignatureEnvelope → List String → Result MarshalError Bytes → Step
  with_manifest pubkey e findings (err x) = err (failed (canonicalize_failed x))
  with_manifest pubkey e findings (ok canonical) =
      with_manifest_signature pubkey canonical findings (hex_decode e.value)

  abbrev pub check_envelope : Manifest → Bytes → List String → Option SignatureEnvelope → Step
  check_envelope m pubkey findings none = ok findings
  check_envelope m pubkey findings (some e) =
      if is_empty pubkey
      then ok findings
      else with_manifest pubkey e findings (canonical_manifest_json env m)

  unfoldable pub verify_manifest_signature : Manifest → Bytes → List String → Step
  unfolding canonical_manifest_json hex_decode
  verify_manifest_signature m pubkey findings = check_envelope m pubkey findings m.signature

  -- 2. One file against its entry.
  abbrev pub check_file : ManifestEntry → List String → Option Bytes → Step
  check_file entry findings none =
      fail "bundle.file_missing" (findings ++ ("file_missing:" <> entry.path) ∷ [])
  check_file entry findings (some actual) =
      if trim_prefix entry.sha "sha256:" == sha256hex env actual
      then ok (findings ++ ("file_hash_valid:" <> entry.path) ∷ [])
      else fail "bundle.file_hash_mismatch" (findings ++ ("file_hash_mismatch:" <> entry.path) ∷ [])

  unfoldable pub verify_files : Bundle → List ManifestEntry → List String → Step
  unfolding lookup trim_prefix sha256hex
  verify_files b [] findings = ok findings
  verify_files b (entry ∷ entries) findings = do
    more ← check_file entry findings (lookup entry.path b.raw_files)
    verify_files b entries more

  -- 2.5 The declared fingerprint of the policy, if it is a text that is not blank.
  abbrev pub with_computed : String → List String → Result MarshalError String → Step
  with_computed fp findings (err x) = err (failed (policy_fingerprint_compute x))
  with_computed fp findings (ok computed) =
      if fp == computed
      then ok (findings ++ "policy.fingerprint_valid" ∷ [])
      else fail "bundle.policy_fingerprint_mismatch"
          (findings ++ "policy.fingerprint_mismatch" ∷ [])

  abbrev pub check_declared : Fields → List String → Option Value → Step
  check_declared policy_map findings (some (str fp)) =
      if trim_space fp == ""
      then ok findings
      else with_computed fp findings
          (compute_fingerprint env.floats env.number_text env.prims.sha256 policy_map)
  check_declared policy_map findings _ = ok findings

  abbrev pub check_policy_map : List String → Option Fields → Step
  check_policy_map findings none = err (failed policy_json_decode_failed)
  check_policy_map findings (some policy_map) =
      check_declared policy_map findings (get "policy_fingerprint" policy_map)

  abbrev pub check_policy : List String → Option Bytes → Step
  check_policy findings none = ok findings
  check_policy findings (some body) =
      let raw = env.trim_space_bytes body in
      if is_empty raw then ok findings else check_policy_map findings (env.decode_object raw)

  unfoldable pub verify_policy_fingerprint : Bundle → List String → Step
  unfolding lookup get compute_fingerprint
  verify_policy_fingerprint b findings = check_policy findings (lookup "policy.json" b.raw_files)

  -- 3. and 4. A Merkle root, if the manifest has one.
  unfoldable pub verify_merkle : String → String → String → String → List String → Step
  verify_merkle prefix reason declared computed findings =
      if declared == ""
      then ok findings
      else if computed == declared
      then ok (findings ++ (prefix <> "_merkle_valid") ∷ [])
      else fail reason (findings ++ (prefix <> "_merkle_mismatch") ∷ [])

  abbrev pub verify_event_merkle : Bundle → Manifest → List String → Step
  verify_event_merkle b m =
      verify_merkle "event" "bundle.event_merkle_mismatch" m.event_merkle
        (compute_item_merkle env.prims.sha256 b.events "event_id")

  abbrev pub verify_attestation_merkle : Bundle → Manifest → List String → Step
  verify_attestation_merkle b m =
      verify_merkle "attestation" "bundle.attestation_merkle_mismatch" m.att_merkle
        (compute_item_merkle env.prims.sha256 b.attestations "attestation_id")

  -- The loop over the findings.
  unfoldable pub is_bad : String → Bool
  unfolding has_suffix
  is_bad f =
      has_suffix f "_invalid" || has_suffix f "_unsupported_alg" || has_suffix f "_decode_failed"

  unfoldable pub verify_findings : List String → Step
  unfolding is_bad
  verify_findings findings =
      if any is_bad findings
      then fail "bundle.object_signature_invalid" findings
      else ok (findings ++ "bundle.verify_pass" ∷ [])

  unfoldable pub verify_steps : Bundle → Manifest → Bytes → Step
  unfolding validate_verification_profile verify_manifest_signature verify_files
      verify_policy_fingerprint verify_merkle compute_item_merkle verify_object_signatures
      verify_findings
  verify_steps b m pubkey = do
    f₁ ← validate_verification_profile env.build_version m b
    f₂ ← verify_manifest_signature m pubkey f₁
    f₃ ← verify_files b (or_none m.files) f₂
    f₄ ← verify_policy_fingerprint b f₃
    f₅ ← verify_event_merkle b m f₄
    f₆ ← verify_attestation_merkle b m f₅
    f₇ ← verify_object_signatures env b f₆
    verify_findings f₇

  -- The value that `verifyExtracted` returns.
  abbrev pub outcome : Step → Result BundleError VerifyResult
  outcome (err (failed e)) = err e
  outcome (err (returned r)) = ok r
  outcome (ok findings) =
      ok (record { status = "pass"; reason = "bundle.verify_pass"; findings = findings })

  abbrev pub with_some_manifest : Bundle → Bytes → Option Manifest → Step
  with_some_manifest b pubkey none = fail "bundle.manifest_missing" []
  with_some_manifest b pubkey (some m) = verify_steps b m pubkey

  unfoldable pub verify_extracted : Bundle → Bytes → Result BundleError VerifyResult
  unfolding verify_steps
  verify_extracted b pubkey = outcome (with_some_manifest b pubkey b.manifest)
