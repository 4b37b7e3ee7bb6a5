-- ===== src/Bundle/Verify/Passes.antt =====
-- What a bundle that passes has been checked for.
use text.Mathlib.TextEquality.{eq_iff}
use intentproof_tools.Prelude.{
  Bool, true, false, ◌||◌, any, is_empty, List, [], ◌∷◌, ◌++◌, All, ◌≡◌, ◌⊎◌, inl, inr, refl, sym,
  subst, ◌∙◌, String, Option, none, some, ◌==◌, Eq-String, Result, err, ok, bind-ok, ok-injective,
  err-not-ok, arith, trim_space, trim_prefix, has_suffix, has_suffix-append, Bool-cases,
}
use intentproof_tools.Prelude.Bytes.{hex_decode}
use intentproof_tools.Merkle.{Bytes}
use intentproof_tools.Value.{str, Fields, get}
use intentproof_tools.Policysig.{SignatureEnvelope}
use intentproof_tools.Policysig.Fingerprint.{compute_fingerprint}
use intentproof_tools.Canon.Encode.{MarshalError}
use intentproof_tools.Bundle.{
  Bundle, Manifest, ManifestEntry, VerificationProfile, Env, BundleError, lookup, check_profile,
  with_profile, validate_verification_profile, is_supported_verifier_version, run_id_ok,
}
use intentproof_tools.Bundle.Manifests.{canonical_manifest_json, sha256hex}
use intentproof_tools.Bundle.Signatures.{
  Verdict, unsigned, decode_failed, unsupported_alg, key_unavailable, invalid, valid,
  verdict_findings, verdict_of, add_verdict, verify_signed_map, verify_each,
}
use intentproof_tools.Bundle.Verify.{
  with_manifest_signature, with_manifest, with_computed, verify_manifest_signature, check_file,
  verify_files, verify_policy_fingerprint, verify_merkle, is_bad, verify_findings,
}

-- The verdicts that a passing bundle may have: an unavailable key is one of them.
abbrev pub accepted : Verdict → Bool
accepted unsigned = true
accepted key_unavailable = true
accepted valid = true
accepted _ = false

or_false : (b c : Bool) → (b || c) ≡ false → (b ≡ false) × (c ≡ false)
or_false b c h = ground arith

module _ (env : Env) where
  -- The profile is there, its verifier version is supported, and its run is the bundle's.
  abbrev pub ProfileOk : Bundle → Manifest → Type 0
  ProfileOk b m =
      (p : VerificationProfile) × (m.verification_profile ≡ some p)
      × (is_supported_verifier_version env.build_version p.verifier_version ≡ true)
      × (run_id_ok b.run p.run_id ≡ true)

  pub profile_sound :
      (b : Bundle) (m : Manifest) (fs : List String)
      → validate_verification_profile env.build_version m b ≡ ok fs
      → ProfileOk b m
  unfolding validate_verification_profile check_profile
  profile_sound b m fs h = of_profile m.verification_profile h
    where
      of_checked :
          (p : VerificationProfile)
          → check_profile env.build_version b.run p ≡ ok fs
          → (is_supported_verifier_version env.build_version p.verifier_version ≡ true)
            × (run_id_ok b.run p.run_id ≡ true)
      of_checked p h = (ground arith, ground arith)

      of_profile :
          (o : Option VerificationProfile)
          → with_profile env.build_version b o ≡ ok fs
          → (p : VerificationProfile) × (o ≡ some p)
            × (is_supported_verifier_version env.build_version p.verifier_version ≡ true)
            × (run_id_ok b.run p.run_id ≡ true)
      of_profile none h = absurd (err-not-ok h)
      of_profile (some p) h = let (a, c) = of_checked p h in (p, refl, a, c)

  -- A signature of the manifest is a valid one, if there is a key to verify it by.
  abbrev pub ManifestSignatureOk : Manifest → Bytes → Type 0
  ManifestSignatureOk m pubkey =
      (e : SignatureEnvelope)
      → m.signature ≡ some e
      → is_empty pubkey ≡ false
      → (canonical : Bytes) × (sig : Bytes) × (canonical_manifest_json env m ≡ ok canonical)
        × (hex_decode e.value ≡ some sig)
        × (env.prims.ed25519_verify pubkey (env.prims.sha256 canonical) sig ≡ true)

  pub manifest_sound :
      (m : Manifest) (pubkey : Bytes) (fs gs : List String)
      → verify_manifest_signature env m pubkey fs ≡ ok gs
      → ManifestSignatureOk m pubkey
  unfolding verify_manifest_signature
  manifest_sound m pubkey fs gs h e q p =
      of_canonical (canonical_manifest_json env m) (rw (q, p) at h)
    where
      of_signature :
          (canonical : Bytes) (o : Option Bytes)
          → with_manifest_signature env pubkey canonical fs o ≡ ok gs
          → (sig : Bytes) × (o ≡ some sig)
            × (env.prims.ed25519_verify pubkey (env.prims.sha256 canonical) sig ≡ true)
      of_signature canonical none h = absurd (err-not-ok h)
      of_signature canonical (some sig) h = (sig, refl, ground arith)

      of_canonical :
          (c : Result MarshalError Bytes)
          → with_manifest env pubkey e fs c ≡ ok gs
          → (canonical : Bytes) × (sig : Bytes) × (c ≡ ok canonical)
            × (hex_decode e.value ≡ some sig)
            × (env.prims.ed25519_verify pubkey (env.prims.sha256 canonical) sig ≡ true)
      of_canonical (err x) h = absurd (err-not-ok h)
      of_canonical (ok canonical) h =
          let (sig, a, c) = of_signature canonical (hex_decode e.value) h in
          (canonical, sig, refl, a, c)

  -- Every file of the manifest is there with its hash.
  abbrev pub FileOk : Bundle → ManifestEntry → Type 0
  FileOk b entry =
      (actual : Bytes) × (lookup entry.path b.raw_files ≡ some actual)
      × (trim_prefix entry.sha "sha256:" ≡ sha256hex env actual)

  file_sound :
      (entry : ManifestEntry) (fs gs : List String) (o : Option Bytes)
      → check_file env entry fs o ≡ ok gs
      → (actual : Bytes) × (o ≡ some actual)
        × (trim_prefix entry.sha "sha256:" ≡ sha256hex env actual)
  file_sound entry fs gs none h = absurd (err-not-ok h)
  file_sound entry fs gs (some actual) h = (
    actual,
    refl,
    ground (arith, eq_iff (trim_prefix entry.sha "sha256:") (sha256hex env actual)),
  )

  pub files_sound :
      (b : Bundle) (entries : List ManifestEntry) (fs gs : List String)
      → verify_files env b entries fs ≡ ok gs
      → All (FileOk b) entries
  unfolding verify_files
  files_sound b [] fs gs h = tt
  files_sound b (entry ∷ entries) fs gs h =
      let (more, e, k) = bind-ok (check_file env entry fs (lookup entry.path b.raw_files)) _ gs h in
      (file_sound entry fs more _ e, files_sound b entries more gs k)

  -- A fingerprint that the policy declares is the computed one.
  abbrev pub FingerprintOk : Bundle → Type 0
  FingerprintOk b =
      (body : Bytes) (policy_map : Fields) (fp : String)
      → lookup "policy.json" b.raw_files ≡ some body
      → is_empty (env.trim_space_bytes body) ≡ false
      → env.decode_object (env.trim_space_bytes body) ≡ some policy_map
      → get "policy_fingerprint" policy_map ≡ some (str fp)
      → (trim_space fp == "") ≡ false
      → compute_fingerprint env.floats env.number_text env.prims.sha256 policy_map ≡ ok fp

  pub policy_sound :
      (b : Bundle) (fs gs : List String)
      → verify_policy_fingerprint env b fs ≡ ok gs
      → FingerprintOk b
  unfolding verify_policy_fingerprint
  policy_sound b fs gs h body policy_map fp e₁ e₂ e₃ e₄ e₅ =
      of_computed _ (rw (e₁, e₂, e₃, e₄, e₅) at h)
    where
      of_computed : (c : Result MarshalError String) → with_computed env fp fs c ≡ ok gs → c ≡ ok fp
      of_computed (err x) h = absurd (err-not-ok h)
      of_computed (ok computed) h = ground (arith, eq_iff fp computed)

  pub merkle_sound :
      (p reason declared computed : String) (fs gs : List String)
      → verify_merkle env p reason declared computed fs ≡ ok gs
      → (declared ≡ "") ⊎ (computed ≡ declared)
  unfolding verify_merkle
  merkle_sound p reason declared computed fs gs h = elim (Bool-cases (declared == "")) [
    | inl e ↦ inl ((eq_iff declared "").0 e)
    | inr e ↦ inr (ground (arith, eq_iff computed declared))
  ]

  any-append :
      (fs gs : List String)
      → any (is_bad env) (fs ++ gs) ≡ (any (is_bad env) fs || any (is_bad env) gs)
  any-append [] gs = refl
  any-append (f ∷ fs) gs = ground (arith, any-append fs gs)

  -- Every object has an accepted verdict.
  abbrev pub ObjectsOk : Bundle → String → String → List String → List Fields → Type 0
  ObjectsOk b label field_name excluded docs =
      All
        (λ doc.
          (v : Verdict) × (verdict_of env b label field_name doc excluded ≡ ok v)
          × (accepted v ≡ true))
        docs

  add_verdict-ok :
      (label : String) (fs gs : List String) (r : Result BundleError Verdict)
      → add_verdict env label fs r ≡ ok gs
      → (v : Verdict) × (r ≡ ok v) × (fs ++ verdict_findings label v ≡ gs)
  add_verdict-ok label fs gs (err e) h = absurd (err-not-ok h)
  add_verdict-ok label fs gs (ok v) h = (v, refl, ok-injective h)

  pub objects_sound :
      (b : Bundle) (label field_name : String) (excluded : List String)
      → ((v : Verdict) → any (is_bad env) (verdict_findings label v) ≡ false → accepted v ≡ true)
      → (docs : List Fields) (fs gs : List String)
      → verify_each env b label field_name excluded docs fs ≡ ok gs
      → any (is_bad env) gs ≡ false
      → (any (is_bad env) fs ≡ false) × ObjectsOk b label field_name excluded docs
  unfolding verify_each verify_signed_map
  objects_sound b label field_name excluded good [] fs gs h k =
      (subst (λ xs. any (is_bad env) xs ≡ false) (sym (ok-injective h)) k, tt)
  objects_sound b label field_name excluded good (doc ∷ docs) fs gs h k =
      let r = verdict_of env b label field_name doc excluded in
      let (more, e, i) = bind-ok (add_verdict env label fs r) _ gs h in
      let (later, rest) = objects_sound b label field_name excluded good docs more gs i k in
      let (v, q, a) = add_verdict-ok label fs more r e in
      let split : (any (is_bad env) fs || any (is_bad env) (verdict_findings label v)) ≡ false =
        sym (any-append fs (verdict_findings label v))
        ∙ subst (λ xs. any (is_bad env) xs ≡ false) (sym a) later in
      let (left, right) = or_false _ _ split in (left, ((v, q, good v right), rest))

  pub no_bad_findings :
      (fs gs : List String) → verify_findings env fs ≡ ok gs → any (is_bad env) fs ≡ false
  unfolding verify_findings
  no_bad_findings fs gs h = ground arith

  -- The finding of a verdict that is not accepted is a bad one.
  pub good_label :
      (label : String) (v : Verdict)
      → any (is_bad env) (verdict_findings label v) ≡ false
      → accepted v ≡ true
  unfolding is_bad verdict_findings has_suffix
  good_label label unsigned h = refl
  good_label label decode_failed h =
      let e = has_suffix-append label ".signature_decode_failed" "_decode_failed" refl in
      ground arith
  good_label label unsupported_alg h =
      let e = has_suffix-append label ".signature_unsupported_alg" "_unsupported_alg" refl in
      ground arith
  good_label label key_unavailable h = refl
  good_label label invalid h =
      let e = has_suffix-append label ".signature_invalid" "_invalid" refl in ground arith
  good_label label valid h = refl
