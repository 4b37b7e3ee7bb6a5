-- ===== src/Bundle/Create.antt =====
-- The files and the manifest of a new bundle (pkg/bundle/create.go, profile.go: deriveVerificationProfile).
-- The clock, the environment and the decoding of JSON are arguments; tar and zstd are outside.
pub mod Files
pub mod ReadBack
use intentproof_tools.Prelude.{
  ℕ, Bool, true, false, not, ◌&&◌, List, [], ◌∷◌, ◌++◌, map, String, Option, none, some, ◌==◌,
  Eq-String, if◌then◌else◌, Result, err, ok, ◌>>=◌, or_err, is_empty, trim_space, ◌<>◌,
}
use intentproof_tools.Prelude.Sorting.{sort, str_lt}
use intentproof_tools.Merkle.{Bytes}
use intentproof_tools.Value.{Value, Fields, get, as_string, or_empty}
use intentproof_tools.Policysig.{SignatureEnvelope}
use intentproof_tools.Policysig.Fingerprint.{compute_fingerprint}
use intentproof_tools.Canon.Encode.{MarshalError}
use intentproof_tools.Bundle.{Manifest, ManifestEntry, VerificationProfile, Env}
use intentproof_tools.Bundle.Manifests.{canonical_manifest_json, compute_item_merkle, sha256hex}
use intentproof_tools.Bundle.Read.{Decoders, TarEntry, file, parse_jsonl}

-- `created_at` is the formatted time, or that of the clock.
pub record CreateOptions : Type 0 where
  pub bundle_id : String
  pub flow_id : String
  pub tenant_id : String
  pub flow_json : Bytes
  pub events_jsonl : Bytes
  pub attestations_jsonl : Bytes
  pub policy_json : Bytes
  pub run_json : Bytes
  pub certificate_json : Bytes
  pub inclusion_proof : Bytes
  pub public_keys : List (String × Bytes)
  pub created_at : String
  pub signer : Option (Bytes → Option SignatureEnvelope)
  pub verification_profile : Option VerificationProfile
  pub spec_version : String
  pub verifier_version : String
  pub export_profile : String
  pub flow_snapshot_id : String
  pub run_id : String

pub data CreateError : Type 0 where
  decode_run_json decode_policy_json sign_manifest : CreateError
  policy_fingerprint canonicalize_manifest : MarshalError → CreateError

-- The first of two texts that is not empty.
abbrev pub if_empty : String → String → String
if_empty s t = if s == "" then t else s

abbrev some_file : String → Bytes → List (String × Bytes)
some_file name body = if is_empty body then [] else (name, body) ∷ []

unfoldable pub key_files : List (String × Bytes) → List (String × Bytes)
key_files [] = []
key_files ((k, v) ∷ rest) = ("keys/" <> k <> ".pub", v) ∷ key_files rest

-- The files of a bundle without its manifest.
unfoldable pub bundle_files : CreateOptions → List (String × Bytes)
unfolding key_files
bundle_files opts =
    ("flow.json", opts.flow_json)
    ∷ ("events.jsonl", opts.events_jsonl)
    ∷ ("attestations.jsonl", opts.attestations_jsonl)
    ∷ ("policy.json", opts.policy_json)
    ∷ ("run.json", opts.run_json)
    ∷ (some_file "certificate.json" opts.certificate_json
        ++ some_file "inclusion_proof.json" opts.inclusion_proof
        ++ key_files opts.public_keys)

unfoldable pub by_name : {A : Type 0} → String × A → String × A → Bool
by_name a b = str_lt a.0 b.0

module _ (env : Env) (decoders : Decoders) where
  abbrev pub entry_of : String × Bytes → ManifestEntry
  entry_of f = record { path = f.0; sha = "sha256:" <> sha256hex env f.1 }

  -- The entries are sorted by their paths.
  unfoldable pub manifest_entries : List (String × Bytes) → List ManifestEntry
  unfolding sort by_name sha256hex
  manifest_entries files = map entry_of (sort by_name files)

  -- `runID, _ = run["run_id"].(string)`
  unfoldable pub profile_run_id : CreateOptions → Result CreateError String
  unfolding get
  profile_run_id opts =
      let run_id = trim_space opts.run_id in
      let decoded = do
        run ← or_err (decoders.decode_map opts.run_json) decode_run_json
        ok (or_empty (as_string (get "run_id" run)))
      in if run_id == "" && not (is_empty opts.run_json) then decoded else ok run_id

  abbrev flow_of_run : Option Fields → String
  flow_of_run none = ""
  flow_of_run (some run) =
      let fid = or_empty (as_string (get "flow_id" run)) in if trim_space fid == "" then "" else fid

  unfoldable pub profile_snapshot_id : CreateOptions → String
  unfolding get
  profile_snapshot_id opts =
      let snapshot = if_empty (trim_space opts.flow_snapshot_id) (trim_space opts.flow_id) in
      if snapshot == "" && not (is_empty opts.run_json)
      then flow_of_run (decoders.decode_map opts.run_json)
      else snapshot

  abbrev versions_of : Result MarshalError String → Result CreateError (Option (List String))
  versions_of (err e) = err (policy_fingerprint e)
  versions_of (ok fp) = ok (if trim_space fp == "" then none else some (fp ∷ []))

  -- `policyVersionsFromJSON`
  unfoldable pub policy_versions_from_json : Bytes → Result CreateError (Option (List String))
  unfolding compute_fingerprint
  policy_versions_from_json body =
      let raw = env.trim_space_bytes body in
      let decoded = do
        policy ← or_err (decoders.decode_map raw) decode_policy_json
        versions_of (compute_fingerprint env.floats env.number_text env.prims.sha256 policy)
      in if is_empty raw then ok none else decoded

  abbrev pub derived :
      String → CreateOptions → Option VerificationProfile → Result CreateError VerificationProfile
  derived spec_ref opts (some p) = ok p
  derived spec_ref opts none = do
    run ← profile_run_id opts
    versions ← policy_versions_from_json opts.policy_json
    ok (record {
      spec_version =
          if_empty (if_empty (trim_space opts.spec_version) (trim_space spec_ref)) "unknown";
      verifier_version =
          if_empty (if_empty (trim_space opts.verifier_version) (trim_space env.build_version))
            "dev";
      policy_versions = versions;
      export_profile = if_empty (trim_space opts.export_profile) "full";
      flow_snapshot_id = profile_snapshot_id opts;
      run_id = run;
    })

  -- `deriveVerificationProfile`, with INTENTPROOF_SPEC_REF
  unfoldable pub derive_verification_profile :
      String → CreateOptions → Result CreateError VerificationProfile
  unfolding profile_run_id profile_snapshot_id policy_versions_from_json trim_space
  derive_verification_profile spec_ref opts = derived spec_ref opts opts.verification_profile

  abbrev pub canonical_or : Result MarshalError Bytes → Result CreateError Bytes
  canonical_or (err e) = err (canonicalize_manifest e)
  canonical_or (ok b) = ok b

  abbrev pub signed_by :
      Manifest → Option (Bytes → Option SignatureEnvelope) → Result CreateError Manifest
  signed_by m none = ok m
  signed_by m (some signer) = do
    canonical ← canonical_or (canonical_manifest_json env m)
    sig ← or_err (signer canonical) sign_manifest
    ok (record m { signature = some sig })

  abbrev pub unsigned_manifest : CreateOptions → VerificationProfile → Manifest
  unsigned_manifest opts profile = record {
    schema = "intentproof.bundle.manifest.v1";
    bundle_id = opts.bundle_id;
    created_at = opts.created_at;
    flow_id = opts.flow_id;
    tenant_id = opts.tenant_id;
    files = some (manifest_entries (bundle_files opts));
    event_merkle =
        compute_item_merkle env.prims.sha256 (parse_jsonl decoders opts.events_jsonl) "event_id";
    att_merkle =
        compute_item_merkle env.prims.sha256 (parse_jsonl decoders opts.attestations_jsonl)
          "attestation_id";
    verification_profile = some profile;
    signature = none;
  }

  unfoldable pub create_manifest : String → CreateOptions → Result CreateError Manifest
  unfolding derive_verification_profile manifest_entries bundle_files compute_item_merkle
      parse_jsonl canonical_manifest_json
  create_manifest spec_ref opts = do
    profile ← derive_verification_profile spec_ref opts
    signed_by (unsigned_manifest opts profile) opts.signer

  -- The entries that are written, sorted by their names; the text of a manifest is a parameter.
  unfoldable pub create :
      (Manifest → Bytes) → String → CreateOptions → Result CreateError (List TarEntry)
  unfolding create_manifest sort by_name bundle_files
  create manifest_json spec_ref opts = do
    manifest ← create_manifest spec_ref opts
    ok (
        map (λ f. file f.0 f.1)
          (sort by_name (bundle_files opts ++ ("manifest.json", manifest_json manifest) ∷ [])))
