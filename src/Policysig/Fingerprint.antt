-- ===== src/Policysig/Fingerprint.antt =====
-- Fingerprints and signatures of policies (pkg/policysig/policysig.go).
use intentproof_tools.Prelude.{Option, none, some, String, Result, err, ok, ◌>>=◌, ◌<>◌, or_err}
use intentproof_tools.Prelude.Bytes.{bytes, hex_encode}
use intentproof_tools.Merkle.{Bytes}
use intentproof_tools.Value.{Value, obj, null, Fields, get, delete, Float64}
use intentproof_tools.Canon.Es6.{Floats}
use intentproof_tools.Canon.Encode.{MarshalError}
use intentproof_tools.Canon.Values.{marshal}
use intentproof_tools.Crypto.{Primitives, SignatureError, verify_signature}
use intentproof_tools.Policysig.{SignatureEnvelope}

-- `delete(m, …)` of the three fields that signing adds.
unfoldable pub without_signing : Fields → Fields
unfolding delete
without_signing m = delete "signed_at" (delete "signature" (delete "policy_fingerprint" m))

pub data PolicyError : Type 0 where
  build_sign_payload : MarshalError → PolicyError
  bad_signature : SignatureError → PolicyError

abbrev pub as_policy_error : Result SignatureError (Unit {0}) → Result PolicyError (Unit {0})
as_policy_error (err e) = err (bad_signature e)
as_policy_error (ok u) = ok u

-- `signature missing`, and what encoding/json does not decode
pub data ExtractError : Type 0 where
  signature_missing parse_envelope : ExtractError

-- The rest of `ExtractSignatureEnvelope`; encoding/json's decoding of the field is a parameter.
abbrev extracted :
    (Value → Option SignatureEnvelope) → Option Value → Result ExtractError SignatureEnvelope
extracted decode none = err signature_missing
extracted decode (some null) = err signature_missing
extracted decode (some v) = or_err (decode v) parse_envelope

-- The same function stands in pkg/crypto and in pkg/policysig.
unfoldable pub extract_signature_envelope :
    (Value → Option SignatureEnvelope) → Fields → Result ExtractError SignatureEnvelope
unfolding get
extract_signature_envelope decode body_map = extracted decode (get "signature" body_map)

module _ (floats : Floats) (number_text : Float64 → String) where
  -- A policy is here the map that its JSON decodes to: `json.Marshal` and `json.Unmarshal`, with which the
  -- source makes it, are outside, and so are their errors.
  unfoldable pub canonicalize_policy : Fields → Result MarshalError Bytes
  unfolding without_signing marshal bytes
  canonicalize_policy policy = do
    canonical ← marshal number_text floats (obj (without_signing policy))
    ok (bytes canonical)

  unfoldable pub compute_fingerprint : (Bytes → Bytes) → Fields → Result MarshalError String
  unfolding canonicalize_policy hex_encode
  compute_fingerprint sha256 policy = do
    canonical ← canonicalize_policy policy
    ok ("sha256:" <> hex_encode (sha256 canonical))

  unfoldable pub build_policy_sign_payload : Fields → Result MarshalError Bytes
  unfolding canonicalize_policy
  build_policy_sign_payload policy = canonicalize_policy policy

  abbrev verify_payload :
      Primitives
      → Result MarshalError Bytes
      → Option SignatureEnvelope
      → Bytes
      → Result PolicyError (Unit {0})
  verify_payload prims (err e) env pub_key = err (build_sign_payload e)
  verify_payload prims (ok payload) env pub_key =
      as_policy_error (verify_signature prims payload env pub_key)

  unfoldable pub verify_policy_signature :
      Primitives → Fields → Option SignatureEnvelope → Bytes → Result PolicyError (Unit {0})
  unfolding build_policy_sign_payload verify_signature
  verify_policy_signature prims body_map env pub_key =
      verify_payload prims (build_policy_sign_payload body_map) env pub_key
