-- ===== src/Bundle/Verify/Fails.antt =====
-- A step of verifyExtracted that returns a result early returns a failure.
use intentproof_tools.Prelude.{
  List, [], ◌∷◌, ◌≡◌, String, Option, none, some, Result, err, ok, ◌>>=◌, arith, ok-not-err,
}
use intentproof_tools.Merkle.{Bytes}
use intentproof_tools.Value.{Fields}
use intentproof_tools.Bundle.{
  Bundle, Manifest, ManifestEntry, Env, BundleError, returned, Step, VerifyResult, lookup,
  check_profile, validate_verification_profile,
}
use intentproof_tools.Bundle.Manifests.{compute_item_merkle}
use intentproof_tools.Bundle.Signatures.{
  Verdict, add_verdict, verify_signed_map, verify_each, verify_object_signatures, optional,
  verdict_of, verify_events, verify_attestations, verify_run, run_excluded,
}
use intentproof_tools.Bundle.Verify.{
  verify_manifest_signature, check_file, verify_files, verify_policy_fingerprint, verify_merkle,
  verify_event_merkle, verify_attestation_merkle, verify_findings, verify_steps, or_none,
  with_some_manifest,
}

abbrev pub Fails : Step → Type 0
Fails m = (r : VerifyResult) → m ≡ err (returned r) → r.status ≡ "fail"

Fails-bind :
    (m : Step) (f : List String → Step)
    → Fails m
    → ((fs : List String) → Fails (f fs))
    → Fails (m >>= f)
Fails-bind (err s) f h k r e = h r e
Fails-bind (ok fs) f h k r e = k fs r e

Fails-profile :
    (version : String) (m : Manifest) (b : Bundle)
    → Fails (validate_verification_profile version m b)
unfolding validate_verification_profile check_profile
Fails-profile version m b r e = ground arith

module _ (env : Env) where
  Fails-manifest :
      (m : Manifest) (pubkey : Bytes) (fs : List String)
      → Fails (verify_manifest_signature env m pubkey fs)
  unfolding verify_manifest_signature
  Fails-manifest m pubkey fs r e = ground arith

  Fails-file :
      (entry : ManifestEntry) (fs : List String) (o : Option Bytes)
      → Fails (check_file env entry fs o)
  Fails-file entry fs o r e = ground arith

  Fails-files :
      (b : Bundle) (entries : List ManifestEntry) (fs : List String)
      → Fails (verify_files env b entries fs)
  unfolding verify_files
  Fails-files b [] fs r e = absurd (ok-not-err e)
  Fails-files b (entry ∷ entries) fs r e =
      Fails-bind (check_file env entry fs (lookup entry.path b.raw_files)) _ (Fails-file entry fs _)
        (λ gs. Fails-files b entries gs) r e

  Fails-policy : (b : Bundle) (fs : List String) → Fails (verify_policy_fingerprint env b fs)
  unfolding verify_policy_fingerprint
  Fails-policy b fs r e = ground arith

  Fails-merkle :
      (p reason declared computed : String) (fs : List String)
      → Fails (verify_merkle env p reason declared computed fs)
  unfolding verify_merkle
  Fails-merkle p reason declared computed fs r e = ground arith

  Fails-verdict :
      (label : String) (fs : List String) (v : Result BundleError Verdict)
      → Fails (add_verdict env label fs v)
  Fails-verdict label fs v r e = ground arith

  Fails-each :
      (b : Bundle) (label field : String) (excluded : List String) (docs : List Fields)
      (fs : List String)
      → Fails (verify_each env b label field excluded docs fs)
  unfolding verify_each verify_signed_map
  Fails-each b label field excluded [] fs r e = absurd (ok-not-err e)
  Fails-each b label field excluded (doc ∷ docs) fs r e =
      Fails-bind (add_verdict env label fs (verdict_of env b label field doc excluded)) _
        (Fails-verdict label fs _) (λ gs. Fails-each b label field excluded docs gs) r e

  Fails-objects : (b : Bundle) (fs : List String) → Fails (verify_object_signatures env b fs)
  unfolding verify_object_signatures
  Fails-objects b fs =
      Fails-bind (verify_events env b fs) _
        (Fails-each b "event" "signature" ("signature" ∷ []) b.events fs)
        λ f₁.
          Fails-bind (verify_attestations env b f₁) _
            (Fails-each b "attestation" "platform_signature" ("platform_signature" ∷ [])
              b.attestations f₁)
            λ f₂.
              Fails-bind (verify_run env b f₂) _
                (Fails-each b "run" "signature" (run_excluded env) (optional env b.run) f₂)
                λ f₃.
                  Fails-each b "certificate" "signature" ("signature" ∷ [])
                    (optional env b.certificate) f₃

  Fails-findings : (fs : List String) → Fails (verify_findings env fs)
  unfolding verify_findings
  Fails-findings fs r e = ground arith

  Fails-steps : (b : Bundle) (m : Manifest) (pubkey : Bytes) → Fails (verify_steps env b m pubkey)
  unfolding verify_steps
  Fails-steps b m pubkey =
      Fails-bind (validate_verification_profile env.build_version m b) _
        (Fails-profile env.build_version m b)
        λ f₁.
          Fails-bind (verify_manifest_signature env m pubkey f₁) _ (Fails-manifest m pubkey f₁)
            λ f₂. Fails-bind (verify_files env b (or_none m.files) f₂) _ (Fails-files b _ f₂) λ f₃.
              Fails-bind (verify_policy_fingerprint env b f₃) _ (Fails-policy b f₃) λ f₄.
                Fails-bind (verify_event_merkle env b m f₄) _
                  (Fails-merkle "event" "bundle.event_merkle_mismatch" m.event_merkle
                    (compute_item_merkle env.prims.sha256 b.events "event_id") f₄)
                  λ f₅.
                    Fails-bind (verify_attestation_merkle env b m f₅) _
                      (Fails-merkle "attestation" "bundle.attestation_merkle_mismatch" m.att_merkle
                        (compute_item_merkle env.prims.sha256 b.attestations "attestation_id") f₅)
                      λ f₆.
                        Fails-bind (verify_object_signatures env b f₆) _ (Fails-objects b f₆)
                          λ f₇. Fails-findings f₇

  pub Fails-some_manifest :
      (b : Bundle) (pubkey : Bytes) (o : Option Manifest)
      → Fails (with_some_manifest env b pubkey o)
  Fails-some_manifest b pubkey none r e = ground arith
  Fails-some_manifest b pubkey (some m) r e = Fails-steps b m pubkey r e
