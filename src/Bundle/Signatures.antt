-- ===== src/Bundle/Signatures.antt =====
-- Signatures of the objects of a bundle (pkg/bundle/helpers.go).
use Prim.Native.Char.{code}
use intentproof_tools.Prelude.{
  Bool, true, not, ◌&&◌, ◌||◌, List, [], ◌∷◌, ◌++◌, String, Char, Option, none, some, ◌==◌, Eq-ℕ,
  Eq-String, if◌then◌else◌, leb, length, Result, err, ok, ◌>>=◌, trim_space, ◌<>◌,
}
use intentproof_tools.Prelude.Bytes.{bytes, hex_decode}
use intentproof_tools.Merkle.{Bytes}
use intentproof_tools.Value.{Value, null, Fields, get}
use intentproof_tools.Policysig.{SignatureEnvelope}
use intentproof_tools.Canon.Encode.{MarshalError}
use intentproof_tools.Crypto.{SignatureError, parse_ed25519, or_else}
use intentproof_tools.Bundle.{
  Bundle, Env, BundleError, signature_canonicalize, failed, Step, lookup,
}
use intentproof_tools.Bundle.Manifests.{canonical_signed_map}

-- What `signatureEnvelopeFromMap` gives: no envelope, an error, or an envelope.
pub data Envelope : Type 0 where
  absent broken : Envelope
  found : SignatureEnvelope → Envelope

abbrev decoded_envelope : Option SignatureEnvelope → Envelope
decoded_envelope none = broken
decoded_envelope (some e) = found e

abbrev pub envelope_of : (Value → Option SignatureEnvelope) → Option Value → Envelope
envelope_of decode none = absent
envelope_of decode (some null) = absent
envelope_of decode (some v) = decoded_envelope (decode v)

unfoldable pub signature_envelope_from_map :
    (Value → Option SignatureEnvelope) → Fields → String → Envelope
unfolding get
signature_envelope_from_map decode doc field_name = envelope_of decode (get field_name doc)

unfoldable pub is_hex_rune : Char → Bool
is_hex_rune c =
    let r = code c in (leb 48 r && leb r 57) || (leb 97 r && leb r 102) || (leb 65 r && leb r 70)

unfoldable pub all_hex : String → Bool
unfolding is_hex_rune
all_hex String.[] = true
all_hex (String.◌∷◌ c s) = is_hex_rune c && all_hex s

unfoldable pub is_ed25519_hex_signature : String → Bool
unfolding all_hex bytes
is_ed25519_hex_signature value = (length (bytes value) == 128) && all_hex value

unfoldable pub decode_signature_value : (Bytes → Option Bytes) → String → Option Bytes
unfolding is_ed25519_hex_signature hex_decode bytes
decode_signature_value base64_decode raw =
    let value = trim_space raw in
    if is_ed25519_hex_signature value
    then hex_decode value
    else or_else (base64_decode (bytes value)) (hex_decode value)

-- What is found about one signed object. An object that is `unsigned` has no finding.
pub data Verdict : Type 0 where
  unsigned decode_failed unsupported_alg key_unavailable invalid valid : Verdict

unfoldable pub verdict_findings : String → Verdict → List String
verdict_findings label unsigned = []
verdict_findings label decode_failed = (label <> ".signature_decode_failed") ∷ []
verdict_findings label unsupported_alg = (label <> ".signature_unsupported_alg") ∷ []
verdict_findings label key_unavailable = (label <> ".signature_key_unavailable") ∷ []
verdict_findings label invalid = (label <> ".signature_invalid") ∷ []
verdict_findings label valid = (label <> ".signature_valid") ∷ []

module _ (env : Env) where
  -- The steps of `verifySignedMap`, the last one first.
  abbrev pub with_payload :
      String → Bytes → Bytes → Result MarshalError Bytes → Result BundleError Verdict
  with_payload label pub_key sig (err e) = err (signature_canonicalize label e)
  with_payload label pub_key sig (ok payload) =
      if env.prims.ed25519_verify pub_key (env.prims.sha256 payload) sig
      then ok valid
      else ok invalid

  abbrev pub with_signature :
      String → Result MarshalError Bytes → Bytes → Option Bytes → Result BundleError Verdict
  with_signature label payload pub_key none = ok decode_failed
  with_signature label payload pub_key (some sig) = with_payload label pub_key sig payload

  abbrev pub with_key :
      String
      → Result MarshalError Bytes
      → Option Bytes
      → Result SignatureError Bytes
      → Result BundleError Verdict
  with_key label payload sig (err e) = ok key_unavailable
  with_key label payload sig (ok pub_key) = with_signature label payload pub_key sig

  abbrev pub with_raw_key :
      String → Result MarshalError Bytes → Option Bytes → Option Bytes → Result BundleError Verdict
  with_raw_key label payload sig none = ok key_unavailable
  with_raw_key label payload sig (some raw) =
      with_key label payload sig (parse_ed25519 env.prims raw)

  abbrev pub with_envelope :
      Bundle → String → Result MarshalError Bytes → Envelope → Result BundleError Verdict
  with_envelope b label payload absent = ok unsigned
  with_envelope b label payload broken = ok decode_failed
  with_envelope b label payload (found e) =
      if trim_space e.value == ""
      then ok unsigned
      else if not (e.alg == "ed25519")
      then ok unsupported_alg
      else with_raw_key label payload (decode_signature_value env.prims.base64_decode e.value)
          (lookup e.key_id b.public_keys)

  unfoldable pub verdict_of :
      Bundle → String → String → Fields → List String → Result BundleError Verdict
  unfolding signature_envelope_from_map decode_signature_value lookup parse_ed25519
      canonical_signed_map trim_space
  verdict_of b label signature_field doc excluded_fields =
      with_envelope b label (canonical_signed_map env doc excluded_fields)
        (signature_envelope_from_map env.decode_envelope doc signature_field)

  abbrev pub add_verdict : String → List String → Result BundleError Verdict → Step
  add_verdict label findings (err e) = err (failed e)
  add_verdict label findings (ok v) = ok (findings ++ verdict_findings label v)

  -- `verifySignedMap`
  unfoldable pub verify_signed_map :
      Bundle → String → String → List String → List String → Fields → Step
  unfolding verdict_of verdict_findings
  verify_signed_map b label signature_field excluded_fields findings doc =
      add_verdict label findings (verdict_of b label signature_field doc excluded_fields)

  -- A loop of `verifyObjectSignatures`.
  unfoldable pub verify_each :
      Bundle → String → String → List String → List Fields → List String → Step
  unfolding verify_signed_map
  verify_each b label signature_field excluded_fields [] findings = ok findings
  verify_each b label signature_field excluded_fields (doc ∷ docs) findings = do
    more ← verify_signed_map b label signature_field excluded_fields findings doc
    verify_each b label signature_field excluded_fields docs more

  abbrev pub optional : Option Fields → List Fields
  optional none = []
  optional (some doc) = doc ∷ []

  -- The four loops.
  abbrev pub verify_events : Bundle → List String → Step
  verify_events b = verify_each b "event" "signature" ("signature" ∷ []) b.events

  abbrev pub verify_attestations : Bundle → List String → Step
  verify_attestations b =
      verify_each b "attestation" "platform_signature" ("platform_signature" ∷ []) b.attestations

  abbrev pub run_excluded : List String
  run_excluded = "signature" ∷ "run_fingerprint" ∷ "started_at" ∷ "completed_at" ∷ []

  abbrev pub verify_run : Bundle → List String → Step
  verify_run b = verify_each b "run" "signature" run_excluded (optional b.run)

  abbrev pub verify_certificate : Bundle → List String → Step
  verify_certificate b =
      verify_each b "certificate" "signature" ("signature" ∷ []) (optional b.certificate)

  unfoldable pub verify_object_signatures : Bundle → List String → Step
  unfolding verify_each
  verify_object_signatures b findings = do
    f₁ ← verify_events b findings
    f₂ ← verify_attestations b f₁
    f₃ ← verify_run b f₂
    verify_certificate b f₃
