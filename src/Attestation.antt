-- ===== src/Attestation.antt =====
-- Attestations (pkg/attestation/adapter.go, canonical.go). A time is its text in RFC3339Nano and UTC, and
-- encoding/json's decoder of a claim value is an argument.
pub mod Ids
use Prim.Native.Char.{code}
use intentproof_tools.Prelude.{
  ℕ, ◌/◌, ◌%◌, Bool, ◌||◌, not, ◌&&◌, List, [], ◌∷◌, Option, none, some, Char, String, ◌<>◌, ◌==◌,
  Eq-ℕ, if◌then◌else◌, Result, err, ok, take, length, is_empty,
}
use intentproof_tools.Prelude.Bytes.{bytes, hex_digit, hex_encode}
use intentproof_tools.Merkle.{Bytes}
use intentproof_tools.Value.{Value, obj, str, Fields, end, field, set, Float64}
use intentproof_tools.Canon.Quote.{escape}
use intentproof_tools.Canon.Es6.{Floats}
use intentproof_tools.Canon.Encode.{MarshalError}
use intentproof_tools.Canon.Values.{marshal}

-- `Result` of adapter.go.
pub record SourceResult : Type 0 where
  pub source_event_id : String
  pub source_emitted_at : String
  pub subject_type : String
  pub subject_id : String
  pub claim : String
  pub claim_value : Bytes

-- encoding/json writes a string with the escapes of the canonical form, and <, >, &, U+2028 and U+2029 in
-- hex besides.
unfoldable pub html_escape : Char → String
unfolding escape
html_escape c =
    let r = code c in
    if r == 0x3c
    then "\\u003c"
    else if r == 0x3e
    then "\\u003e"
    else if r == 0x26
    then "\\u0026"
    else if r == 0x2028
    then "\\u2028"
    else if r == 0x2029
    then "\\u2029"
    else escape c

unfoldable pub html_escaped : String → String
unfolding html_escape
html_escaped String.[] = "\""
html_escaped (String.◌∷◌ c s) = html_escape c <> html_escaped s

unfoldable pub json_string : String → String
unfolding html_escaped
json_string s = String.◌∷◌ "\"" (html_escaped s)

-- `json.Marshal([3]string{a, b, c})`
unfoldable pub json_triple : String → String → String → String
unfolding json_string
json_triple a b c =
    String.◌∷◌ "[" (json_string a <> ("," <> (json_string b <> ("," <> (json_string c <> "]")))))

unfoldable pub seed : String → String → String → Bytes
unfolding json_triple bytes
seed tenant_id source_id source_event_id =
    0x01 ∷ bytes (json_triple tenant_id source_id source_event_id)

unfoldable pub derive_attestation_id : (Bytes → Bytes) → String → String → String → String
unfolding seed hex_encode
derive_attestation_id sha256 tenant_id source_id source_event_id =
    "att_" <> hex_encode (take 12 (sha256 (seed tenant_id source_id source_event_id)))

abbrev with_correlation : Fields → Option String → Fields
with_correlation m none = m
with_correlation m (some id) = set "mapping_to" (obj (field "correlation_id" (str id) end)) m

unfoldable pub subject : String → String → Option String → Fields
unfolding set
subject subject_type subject_id correlation_id =
    with_correlation (field "type" (str subject_type) (field "id" (str subject_id) end))
      correlation_id

abbrev or_no_fields : Option Value → Value
or_no_fields none = obj end
or_no_fields (some v) = v

unfoldable pub decode_claim_value : (Bytes → Option Value) → Bytes → Value
decode_claim_value decode raw = if is_empty raw then obj end else or_no_fields (decode raw)

pub data BodyError : Type 0 where
  payload_hash_length : ℕ → BodyError
  canonicalize_body : MarshalError → BodyError

abbrev marshalled : Result MarshalError String → Result BodyError String
marshalled (err e) = err (canonicalize_body e)
marshalled (ok s) = ok s

-- A map, which may be nil.
abbrev fields_or_null : Option Fields → Value
fields_or_null none = Value.null
fields_or_null (some m) = obj m

unfoldable pub body_fields :
    (Bytes → Option Value)
    → String
    → String
    → String
    → String
    → SourceResult
    → Option String
    → Option Fields
    → Bytes
    → Fields
unfolding subject decode_claim_value hex_encode
body_fields decode tenant_id source_id attestation_id received_at result correlation_id
      source_signature payload_hash =
    field "schema" (str "intentproof.attestation.v1") (
      field "attestation_id" (str attestation_id) (
        field "tenant_id" (str tenant_id) (
          field "source_id" (str source_id) (
            field "received_at" (str received_at) (
              field "source_emitted_at" (str result.source_emitted_at) (
                field "subject" (obj (subject result.subject_type result.subject_id correlation_id))
                  (field "claim" (str result.claim) (
                    field "claim_value" (decode_claim_value decode result.claim_value) (
                      field "source_payload_sha256" (str ("sha256:" <> hex_encode payload_hash))
                        (field "source_signature" (fields_or_null source_signature) end))))))))))

unfoldable pub canonical_body :
    Floats
    → (Float64 → String)
    → (Bytes → Option Value)
    → String
    → String
    → String
    → String
    → SourceResult
    → Option String
    → Option Fields
    → Bytes
    → Result BodyError String
unfolding body_fields marshal
canonical_body floats number_text decode tenant_id source_id attestation_id received_at result
      correlation_id source_signature payload_hash =
    let n = length payload_hash in
    let body =
      body_fields decode tenant_id source_id attestation_id received_at result correlation_id
        source_signature payload_hash in
    if not (n == 0) && not (n == 32)
    then err (payload_hash_length n)
    else marshalled (marshal number_text floats (obj body))
