-- ===== src/Bundle.antt =====
-- Evidence bundles (pkg/bundle/types.go, profile.go).
pub mod Manifests
pub mod Read
pub mod Create
pub mod Replay
pub mod Explain
pub mod Signatures
pub mod Valid
pub mod Verify
use intentproof_tools.Prelude.{
  Bool, true, false, not, ◌&&◌, List, [], ◌∷◌, ◌++◌, String, Option, none, some, any, ◌==◌,
  Eq-String, if◌then◌else◌, Result, err, ok, ◌>>=◌, ◌>>◌, trim_space,
}
use intentproof_tools.Merkle.{Bytes}
use intentproof_tools.Value.{Value, Fields, Float64, get, as_string, or_empty}
use intentproof_tools.Policysig.{SignatureEnvelope, mem}
use intentproof_tools.Canon.Es6.{Floats}
use intentproof_tools.Canon.Encode.{MarshalError}
use intentproof_tools.Crypto.{Primitives}

-- A nil slice is none.
pub record VerificationProfile : Type 0 where
  pub spec_version : String
  pub verifier_version : String
  pub policy_versions : Option (List String)
  pub export_profile : String
  pub flow_snapshot_id : String
  pub run_id : String

pub record ManifestEntry : Type 0 where
  pub path : String
  pub sha : String

pub record Manifest : Type 0 where
  pub schema : String
  pub bundle_id : String
  pub created_at : String
  pub flow_id : String
  pub tenant_id : String
  pub files : Option (List ManifestEntry)
  pub event_merkle : String
  pub att_merkle : String
  pub verification_profile : Option VerificationProfile
  pub signature : Option SignatureEnvelope

-- A nil map is none; `map[string][]byte` is a list of keys and values, the first of a key counts.
pub record Bundle : Type 0 where
  pub manifest : Option Manifest
  pub flow : Option Fields
  pub events : List Fields
  pub attestations : List Fields
  pub policy : Option Fields
  pub run : Option Fields
  pub certificate : Option Fields
  pub inclusion_proof : List String
  pub public_keys : List (String × Bytes)
  pub raw_files : List (String × Bytes)

pub record VerifyResult : Type 0 where
  pub status : String
  pub reason : String
  pub findings : List String

-- What the code calls outside: the primitives of pkg/crypto, the floats of pkg/canon, encoding/json
-- (the text of a float64, a map, an envelope), bytes.TrimSpace, and buildinfo.Version.
pub record Env : Type 0 where
  pub prims : Primitives
  pub floats : Floats
  pub number_text : Float64 → String
  pub decode_object : Bytes → Option Fields
  pub decode_envelope : Value → Option SignatureEnvelope
  pub trim_space_bytes : Bytes → Bytes
  pub build_version : String

pub data BundleError : Type 0 where
  canonicalize_failed policy_fingerprint_compute : MarshalError → BundleError
  policy_json_decode_failed : BundleError
  signature_canonicalize : String → MarshalError → BundleError

-- How a step of `verifyExtracted` ends it: with an error, or with a result.
pub data Stop : Type 0 where
  failed : BundleError → Stop
  returned : VerifyResult → Stop

-- A step takes the findings so far and goes on with more of them.
abbrev pub Step : Type 0
Step = Result Stop (List String)

abbrev pub fail : String → List String → Step
fail reason findings =
    err (returned (record { status = "fail"; reason = reason; findings = findings }))

-- `v, ok := m[k]`
unfoldable pub lookup : {A : Type 0} → String → List (String × A) → Option A
lookup k [] = none
lookup k ((j, a) ∷ rest) = if j == k then some a else lookup k rest

-- The loop over the candidates.
abbrev add_version : List String → String → List String
add_version out candidate =
    if candidate == "" then out else if mem out candidate then out else out ++ candidate ∷ []

unfoldable pub supported_verifier_versions : String → List String
supported_verifier_versions build_version =
    add_version (add_version [] (trim_space build_version)) "dev"

unfoldable pub is_supported_verifier_version : String → String → Bool
unfolding supported_verifier_versions
is_supported_verifier_version build_version version =
    any (λ allowed. trim_space version == allowed) (supported_verifier_versions build_version)

-- `run["run_id"]` against the profile's; a missing run passes.
unfoldable pub run_id_ok : Option Fields → String → Bool
unfolding get
run_id_ok none run_id = true
run_id_ok (some run) run_id =
    let actual = or_empty (as_string (get "run_id" run)) in
    if trim_space run_id == ""
    then true
    else if trim_space actual == ""
    then true
    else actual == run_id

unfoldable pub check_profile : String → Option Fields → VerificationProfile → Step
unfolding is_supported_verifier_version run_id_ok
check_profile build_version run p =
    let present = "verification_profile.present" ∷ [] in
    let supported = present ++ "verification_profile.verifier_version_supported" ∷ [] in
    if trim_space p.verifier_version == ""
    then fail "bundle.verification_profile_invalid"
        (present ++ "verification_profile.verifier_version_missing" ∷ [])
    else if not (is_supported_verifier_version build_version p.verifier_version)
    then fail "bundle.verification_profile_unsupported"
        (present ++ "verification_profile.verifier_version_unsupported" ∷ [])
    else if not (run_id_ok run p.run_id)
    then fail "bundle.verification_profile_invalid"
        (supported ++ "verification_profile.run_id_mismatch" ∷ [])
    else ok (supported ++ "verification_profile.run_id_valid" ∷ [])

abbrev pub with_profile : String → Bundle → Option VerificationProfile → Step
with_profile build_version b none =
    fail "bundle.verification_profile_missing" ("verification_profile.missing" ∷ [])
with_profile build_version b (some p) = check_profile build_version b.run p

-- `validateVerificationProfile`
unfoldable pub validate_verification_profile : String → Manifest → Bundle → Step
unfolding check_profile
validate_verification_profile build_version m b =
    with_profile build_version b m.verification_profile
