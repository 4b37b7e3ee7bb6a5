-- ===== src/Bundle/Verify/Verified.antt =====
-- Which bundles verifyExtracted passes.
use intentproof_tools.Prelude.{
  false, any, List, [], ◌∷◌, All, ◌≡◌, ◌⊎◌, refl, sym, ap, ◌∙◌, String, Option, none, some, err, ok,
  bind-ok, ok-injective, err-not-ok, ne-of-eq-false,
}
use intentproof_tools.Merkle.{Bytes}
use intentproof_tools.Bundle.{
  Bundle, Manifest, VerifyResult, Env, failed, returned, Step, validate_verification_profile,
}
use intentproof_tools.Bundle.Manifests.{compute_item_merkle}
use intentproof_tools.Bundle.Signatures.{
  optional, run_excluded, verify_events, verify_attestations, verify_run, verify_object_signatures,
}
use intentproof_tools.Bundle.Verify.{
  verify_manifest_signature, verify_files, verify_policy_fingerprint, verify_event_merkle,
  verify_attestation_merkle, is_bad, verify_steps, or_none, outcome, with_some_manifest,
  verify_extracted,
}
use intentproof_tools.Bundle.Verify.Fails.{Fails, Fails-some_manifest}
use intentproof_tools.Bundle.Verify.Passes.{
  ProfileOk, profile_sound, ManifestSignatureOk, manifest_sound, FileOk, files_sound, FingerprintOk,
  policy_sound, merkle_sound, ObjectsOk, objects_sound, good_label, no_bad_findings,
}

module _ (env : Env) where
  -- Everything that a passing bundle has been checked for.
  pub record Verified (b : Bundle) (m : Manifest) (pubkey : Bytes) : Type 0 where
    pub profile : ProfileOk env b m
    pub manifest_signature : ManifestSignatureOk env m pubkey
    pub files : All (FileOk env b) (or_none m.files)
    pub fingerprint : FingerprintOk env b
    pub event_root :
        (m.event_merkle ≡ "")
        ⊎ (compute_item_merkle env.prims.sha256 b.events "event_id" ≡ m.event_merkle)
    pub attestation_root :
        (m.att_merkle ≡ "")
        ⊎ (compute_item_merkle env.prims.sha256 b.attestations "attestation_id" ≡ m.att_merkle)
    pub events : ObjectsOk env b "event" "signature" ("signature" ∷ []) b.events
    pub attestations :
        ObjectsOk env b "attestation" "platform_signature"
          ("platform_signature" ∷ [])
          b.attestations
    pub run : ObjectsOk env b "run" "signature" (run_excluded env) (optional env b.run)
    pub certificate :
        ObjectsOk env b "certificate" "signature" ("signature" ∷ []) (optional env b.certificate)

  -- The verdicts of all objects, from the findings behind them.
  objects :
      (b : Bundle) (fs gs : List String)
      → verify_object_signatures env b fs ≡ ok gs
      → any (is_bad env) gs ≡ false
      → ObjectsOk env b "event" "signature" ("signature" ∷ []) b.events
        × ObjectsOk env b "attestation" "platform_signature"
            ("platform_signature" ∷ [])
            b.attestations
        × ObjectsOk env b "run" "signature" (run_excluded env) (optional env b.run)
        × ObjectsOk env b "certificate" "signature" ("signature" ∷ []) (optional env b.certificate)
  unfolding verify_object_signatures
  objects b fs gs h k =
      let (f₁, e₁, h₁) = bind-ok (verify_events env b fs) _ gs h in
      let (f₂, e₂, h₂) = bind-ok (verify_attestations env b f₁) _ gs h₁ in
      let (f₃, e₃, h₃) = bind-ok (verify_run env b f₂) _ gs h₂ in
      let (k₃, o₄) =
        objects_sound env b "certificate" "signature" ("signature" ∷ [])
          (good_label env "certificate") (optional env b.certificate) f₃ gs h₃ k in
      let (k₂, o₃) =
        objects_sound env b "run" "signature" (run_excluded env) (good_label env "run")
          (optional env b.run) f₂ f₃ e₃ k₃ in
      let (k₁, o₂) =
        objects_sound env b "attestation" "platform_signature" ("platform_signature" ∷ [])
          (good_label env "attestation") b.attestations f₁ f₂ e₂ k₂ in
      let (k₀, o₁) =
        objects_sound env b "event" "signature" ("signature" ∷ []) (good_label env "event") b.events
          fs f₁ e₁ k₁ in
      (o₁, o₂, o₃, o₄)

  steps-Verified :
      (b : Bundle) (m : Manifest) (pubkey : Bytes) (fs : List String)
      → verify_steps env b m pubkey ≡ ok fs
      → Verified b m pubkey
  unfolding verify_steps
  steps-Verified b m pubkey fs h =
      let (f₁, e₁, h₁) = bind-ok (validate_verification_profile env.build_version m b) _ fs h in
      let (f₂, e₂, h₂) = bind-ok (verify_manifest_signature env m pubkey f₁) _ fs h₁ in
      let (f₃, e₃, h₃) = bind-ok (verify_files env b (or_none m.files) f₂) _ fs h₂ in
      let (f₄, e₄, h₄) = bind-ok (verify_policy_fingerprint env b f₃) _ fs h₃ in
      let (f₅, e₅, h₅) = bind-ok (verify_event_merkle env b m f₄) _ fs h₄ in
      let (f₆, e₆, h₆) = bind-ok (verify_attestation_merkle env b m f₅) _ fs h₅ in
      let (f₇, e₇, h₇) = bind-ok (verify_object_signatures env b f₆) _ fs h₆ in
      let (o₁, o₂, o₃, o₄) = objects b f₆ f₇ e₇ (no_bad_findings env f₇ fs h₇) in
      record {
        profile = profile_sound env b m f₁ e₁;
        manifest_signature = manifest_sound env m pubkey f₁ f₂ e₂;
        files = files_sound env b (or_none m.files) f₂ f₃ e₃;
        fingerprint = policy_sound env b f₃ f₄ e₄;
        event_root =
            merkle_sound env "event" "bundle.event_merkle_mismatch" m.event_merkle
              (compute_item_merkle env.prims.sha256 b.events "event_id") f₄ f₅ e₅;
        attestation_root =
            merkle_sound env "attestation" "bundle.attestation_merkle_mismatch" m.att_merkle
              (compute_item_merkle env.prims.sha256 b.attestations "attestation_id") f₅ f₆ e₆;
        events = o₁;
        attestations = o₂;
        run = o₃;
        certificate = o₄;
      }

  some_manifest-Verified :
      (b : Bundle) (pubkey : Bytes) (o : Option Manifest) (fs : List String)
      → with_some_manifest env b pubkey o ≡ ok fs
      → (m : Manifest) × (o ≡ some m) × Verified b m pubkey
  some_manifest-Verified b pubkey none fs h = absurd (err-not-ok h)
  some_manifest-Verified b pubkey (some m) fs h = (m, refl, steps-Verified b m pubkey fs h)

  -- A result that is a pass comes from a chain that went through.
  outcome-pass :
      (s : Step) (r : VerifyResult)
      → Fails s
      → outcome env s ≡ ok r
      → r.status ≡ "pass"
      → (fs : List String) × (s ≡ ok fs)
  outcome-pass (err (failed e)) r f h p = absurd (err-not-ok h)
  outcome-pass (err (returned q)) r f h p =
      absurd (
        ne-of-eq-false "fail" "pass" refl
          (sym (f q refl) ∙ ap (λ t. t.status) (ok-injective h) ∙ p))
  outcome-pass (ok fs) r f h p = (fs, refl)

  pub verify_extracted-Verified :
      (b : Bundle) (pubkey : Bytes) (r : VerifyResult)
      → verify_extracted env b pubkey ≡ ok r
      → r.status ≡ "pass"
      → (m : Manifest) × (b.manifest ≡ some m) × Verified b m pubkey
  unfolding verify_extracted
  verify_extracted-Verified b pubkey r h p =
      let steps = with_some_manifest env b pubkey b.manifest in
      let (fs, e) = outcome-pass steps r (Fails-some_manifest env b pubkey b.manifest) h p in
      some_manifest-Verified b pubkey b.manifest fs e
