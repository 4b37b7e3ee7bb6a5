-- ===== src/Scenarios/Bundles.antt =====
-- A concrete bundle, by a hash that is the length of its input.
use intentproof_tools.Prelude.{
  ◌≡◌, ◌↔◌, refl, ap, ok-injective, String, List, [], ◌∷◌, ◌++◌, none, some, true, false, ok,
  length,
}
use intentproof_tools.Value.{str, Fields, end, field}
use intentproof_tools.Canon.Es6.{Floats}
use intentproof_tools.Crypto.{Primitives}
use intentproof_tools.Bundle.{
  VerificationProfile, ManifestEntry, Manifest, Bundle, VerifyResult, Env,
}
use intentproof_tools.Bundle.Signatures.{verdict_of, valid, key_unavailable}
use intentproof_tools.Bundle.Read.{Decoders, TarEntry, file, read_from_tar}
use intentproof_tools.Bundle.Create.{CreateOptions, bundle_files, create_manifest, create}
use intentproof_tools.Bundle.Create.Files.{no_repeat, no_repeat-Functional}
use intentproof_tools.Bundle.Create.ReadBack.{Faithful, create-reads_back}
use intentproof_tools.Bundle.Verify.{verify_extracted}
use intentproof_tools.Bundle.Verify.Verified.{Verified}
use intentproof_tools.Bundle.Valid.{ValidlySigned, verdict_valid_iff}

abbrev prims : Primitives
prims = record {
  sha256 = λ b. length b ∷ [];
  base64_decode = λ b. some b;
  pem_decode = λ b. none;
  parse_authorized_key = λ b. none;
  parse_pkix = λ b. none;
  asn1_integers = λ b. none;
  ed25519_verify = λ key digest sig. true;
  ecdsa_verify = λ key digest r s. false;
}

abbrev floats : Floats
floats = record { parse_float = λ s. none; format_e = λ f. "1e+00"; format_g = λ f. "1" }

abbrev pub env : Env
env = record {
  prims = prims;
  floats = floats;
  number_text = λ x. "0";
  decode_object = λ b. none;
  decode_envelope = λ v. some (record { alg = "ed25519"; key_id = "k1"; value = "sig" });
  trim_space_bytes = λ b. b;
  build_version = "v1.2.0";
}

abbrev profile : VerificationProfile
profile = record {
  spec_version = "1";
  verifier_version = "dev";
  policy_versions = none;
  export_profile = "full";
  flow_snapshot_id = "f1";
  run_id = "";
}

abbrev manifest : Manifest
manifest = record {
  schema = "intentproof.bundle.manifest.v1";
  bundle_id = "b1";
  created_at = "2026-01-01T00:00:00Z";
  flow_id = "f1";
  tenant_id = "acme";
  files = some (record { path = "flow.json"; sha = "sha256:02" } ∷ []);
  event_merkle = "sha256:03";
  att_merkle = "";
  verification_profile = some profile;
  signature = none;
}

abbrev event : Fields
event = field "event_id" (str "e1") end

abbrev bundle : Bundle
bundle = record {
  manifest = some manifest;
  flow = some end;
  events = event ∷ [];
  attestations = [];
  policy = none;
  run = none;
  certificate = none;
  inclusion_proof = [];
  public_keys = [];
  raw_files = ("flow.json", 123 ∷ 125 ∷ []) ∷ [];
}

abbrev result : VerifyResult
result = record {
  status = "pass";
  reason = "bundle.verify_pass";
  findings =
      "verification_profile.present" ∷ "verification_profile.verifier_version_supported"
      ∷ "verification_profile.run_id_valid" ∷ "file_hash_valid:flow.json" ∷ "event_merkle_valid"
      ∷ "bundle.verify_pass" ∷ [];
}

verdict_valid_iff_example :
    (verdict_of env bundle "event" "signature" event ("signature" ∷ []) ≡ ok valid)
    ↔ ValidlySigned env bundle "signature" event ("signature" ∷ [])
verdict_valid_iff_example =
    verdict_valid_iff env bundle "event" "signature" event ("signature" ∷ [])

-- A signature whose key is not in the bundle is let through.
abbrev signed_event : Fields
signed_event = field "event_id" (str "e1") (field "signature" (str "x") end)

unknown_key :
    verdict_of env bundle "event" "signature" signed_event ("signature" ∷ []) ≡ ok key_unavailable
unfolding verdict_of
unknown_key = refl

-- A file whose name ends like a bad finding makes a good bundle fail.
abbrev oddly_named : Bundle
oddly_named = record bundle {
  manifest =
      some
        (record manifest { files = some (record { path = "x_invalid"; sha = "sha256:02" } ∷ []) });
  raw_files = ("x_invalid", 123 ∷ 125 ∷ []) ∷ [];
}

oddly_named-fails :
    verify_extracted env oddly_named []
    ≡ ok (record {
      status = "fail";
      reason = "bundle.object_signature_invalid";
      findings =
          "verification_profile.present" ∷ "verification_profile.verifier_version_supported"
          ∷ "verification_profile.run_id_valid" ∷ "file_hash_valid:x_invalid" ∷ "event_merkle_valid"
          ∷ [];
    })
unfolding verify_extracted
oddly_named-fails = refl

abbrev entry : String → String → ManifestEntry
entry p h = record { path = p; sha = h }

abbrev created_manifest : Manifest
created_manifest = record manifest {
  event_merkle = "sha256:03";
  att_merkle = "sha256:00";
  files = some (
      entry "attestations.jsonl" "sha256:00"
      ∷ entry "events.jsonl" "sha256:03"
      ∷ entry "flow.json" "sha256:02"
      ∷ entry "keys/k1.pub" "sha256:01"
      ∷ entry "policy.json" "sha256:00"
      ∷ entry "run.json" "sha256:00"
      ∷ []);
}

abbrev pub decoders : Decoders
decoders = record {
  decode_manifest = λ b. some created_manifest;
  decode_map = λ b. some event;
  fill_map = λ old b. some event;
  fill_strings = λ old b. old;
  trim_line = λ b. b;
}

abbrev options : CreateOptions
options = record {
  bundle_id = "b1";
  flow_id = "f1";
  tenant_id = "acme";
  flow_json = 123 ∷ 125 ∷ [];
  events_jsonl = 123 ∷ 125 ∷ 10 ∷ [];
  attestations_jsonl = [];
  policy_json = [];
  run_json = [];
  certificate_json = [];
  inclusion_proof = [];
  public_keys = ("k1", 7 ∷ []) ∷ [];
  created_at = "2026-01-01T00:00:00Z";
  signer = none;
  verification_profile = some profile;
  spec_version = "";
  verifier_version = "";
  export_profile = "";
  flow_snapshot_id = "";
  run_id = "";
}

abbrev pub created : List TarEntry
created =
    file "attestations.jsonl" []
    ∷ file "events.jsonl" (123 ∷ 125 ∷ 10 ∷ [])
    ∷ file "flow.json" (123 ∷ 125 ∷ [])
    ∷ file "keys/k1.pub" (7 ∷ [])
    ∷ file "manifest.json" (1 ∷ [])
    ∷ file "policy.json" []
    ∷ file "run.json" []
    ∷ []

create-reads_back_example :
    (m : Manifest) × (b : Bundle) × (create_manifest env decoders "" options ≡ ok m)
    × (read_from_tar decoders created ≡ ok b)
    × Faithful env decoders options m b
unfolding create_manifest create bundle_files no_repeat
create-reads_back_example =
    create-reads_back env decoders (λ m. 1 ∷ []) "" options created
      (λ m e. ap some (ok-injective e))
      (λ text. no_repeat-Functional (bundle_files options ++ ("manifest.json", text) ∷ []) refl)
      refl
