-- ===== src/Localloop/Ingest.antt =====
-- `validateEvent` and `handleV1Events` of pkg/localloop/ingest.go. What the handler calls besides the
-- store is a parameter: the decoder, the canonical encoder, the check of the signature, and NATS.
pub mod Requests
use Prim.Native.Char.{code}
use intentproof_tools.Prelude.{
  ℕ, ◌-◌, String, List, [], ◌∷◌, Bool, true, false, not, ◌&&◌, ◌||◌, all, length, leb, Option, none,
  some, ◌==◌, Eq-ℕ, Eq-String, if◌then◌else◌, has_prefix, drop, Result, err, ok, ◌>>=◌, ◌>>◌, guard,
  or_err,
}
use intentproof_tools.Prelude.Int.{ℤ, pos, ltb_ℤ}
use intentproof_tools.Prelude.Bytes.{bytes}
use intentproof_tools.Merkle.{Bytes}
use intentproof_tools.Localloop.Types.{ExecutionEvent, Row}
use intentproof_tools.Localloop.Store.{
  StoreError, slot_taken, normalize_prev_event_hash, store_event,
}

-- The digits that encoding/hex reads.
unfoldable pub is_hex : ℕ → Bool
is_hex c = (leb b'0' c && leb c b'9') || (leb b'a' c && leb c b'f') || (leb b'A' c && leb c b'F')

pub data EventError : Type 0 where
  invalid_schema missing_identity bad_position invalid_envelope : EventError
  no_hash_prefix bad_hash_length invalid_hex : EventError

-- The length of the prefix `sha256:`.
abbrev prefix_length : ℕ
prefix_length = 7

-- The bytes behind the prefix. Their number is even, so that `hex.DecodeString` only asks for digits.
abbrev pub hex_part : ExecutionEvent → Bytes
hex_part ev = drop prefix_length (bytes (normalize_prev_event_hash ev.prev_event_hash))

unfoldable pub missing_identity_fields : ExecutionEvent → Bool
missing_identity_fields ev =
    ev.event_id == "" || ev.tenant_id == "" || ev.instance_id == "" || ev.correlation_id == ""

unfoldable pub bad_envelope : ExecutionEvent → Bool
bad_envelope ev = not (ev.signature.alg == "ed25519") || ev.signature.value == ""

unfoldable pub validate_event : ExecutionEvent → Result EventError (Unit {0})
validate_event ev = do
  guard (ev.schema == "intentproof.event.v1") invalid_schema
  guard (not (missing_identity_fields ev)) missing_identity
  guard (not (ltb_ℤ ev.chain_position (pos 1))) bad_position
  guard (not (bad_envelope ev)) invalid_envelope
  guard (has_prefix "sha256:" (normalize_prev_event_hash ev.prev_event_hash)) no_hash_prefix
  guard (length (hex_part ev) == 64) bad_hash_length
  guard (all is_hex (hex_part ev)) invalid_hex

-- The ways in which `verifyEventSignature` fails.
pub data SignatureError : Type 0 where
  unknown_sdk bad_signature invalid_request other_failure : SignatureError

pub data Status : Type 0 where
  accepted bad_request unauthorized method_not_allowed conflict internal_error : Status

unfoldable pub signature_status : SignatureError → Status
signature_status unknown_sdk = unauthorized
signature_status bad_signature = unauthorized
signature_status invalid_request = bad_request
signature_status other_failure = internal_error

-- All errors of the store but that of the index wrap ErrChainConflict.
unfoldable pub store_status : StoreError → Status
store_status slot_taken = internal_error
store_status _ = conflict

pub record Services : Type 0 where
  pub decode : String → Option ExecutionEvent
  pub canonicalize : ExecutionEvent → Option Bytes
  pub sha256 : Bytes → Bytes
  pub verify_signature : ExecutionEvent → Bytes → Option SignatureError
  -- Whether `PublishEventCommitted` succeeds; a server without NATS has none.
  pub nats : Option (ExecutionEvent → Bool)

-- The status of a failed check, and of a failed signature.
unfoldable pub as_bad_request : Result EventError (Unit {0}) → Result Status (Unit {0})
as_bad_request (err e) = err bad_request
as_bad_request (ok u) = ok u

unfoldable pub signed : Option SignatureError → Result Status (Unit {0})
signed none = ok tt
signed (some e) = err (signature_status e)

-- Whether the message goes out, or there is none to send.
unfoldable pub published : Option (ExecutionEvent → Bool) → ExecutionEvent → Bool
published none ev = true
published (some publish) ev = publish ev

-- What the handler does with the result of `StoreEvent`. The rows stay stored where the message is not
-- published.
unfoldable pub committed : List Row → Bool → Result StoreError (List Row × Bool) → List Row × Status
committed rows sent (err e) = (rows, store_status e)
committed rows sent (ok (rows', inserted)) = (rows', if sent then accepted else internal_error)

module _ (services : Services) where
  open services use {decode, canonicalize, sha256, verify_signature, nats}

  -- From the request to its event; a body that cannot be read is `none`.
  unfoldable pub receive : Bool → Option String → Result Status ExecutionEvent
  receive is_post body = do
    guard is_post method_not_allowed
    text ← or_err body bad_request
    or_err (decode text) bad_request

  -- From the event to its hash.
  unfoldable pub authenticate : ExecutionEvent → Result Status Bytes
  authenticate ev = do
    as_bad_request (validate_event ev)
    canon ← or_err (canonicalize ev) internal_error
    signed (verify_signature ev (sha256 canon))
    ok (sha256 canon)

  unfoldable pub store_signed : List Row → ExecutionEvent → Result Status Bytes → List Row × Status
  store_signed rows ev (err status) = (rows, status)
  store_signed rows ev (ok hash) = committed rows (published nats ev) (store_event rows ev hash)

  unfoldable pub respond : List Row → Result Status ExecutionEvent → List Row × Status
  respond rows (err status) = (rows, status)
  respond rows (ok ev) = store_signed rows ev (authenticate ev)

  -- The rows behind the request, and the status of the response.
  unfoldable pub handle_v1_events : List Row → Bool → Option String → List Row × Status
  handle_v1_events rows is_post body = respond rows (receive is_post body)
