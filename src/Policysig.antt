-- ===== src/Policysig.antt =====
-- Keys and signature envelopes of pkg/policysig: keystatus.go, resolve.go and envelope.go.
pub mod Keys
pub mod Envelope
pub mod Fingerprint
pub mod Signing
use intentproof_tools.Prelude.{
  String, List, [], ◌∷◌, Bool, not, any, ◌==◌, Eq-String, Option, none, some, if◌then◌else◌,
  trim_space, to_lower, true, false,
}
use intentproof_tools.Verifier.Time.{Time, before, after}

abbrev pub KeyStatus : Type 0
KeyStatus = String

abbrev pub allowed_key_statuses : List KeyStatus
allowed_key_statuses = "active" ∷ "inactive" ∷ "revoked" ∷ []

-- `_, ok := set[s]`
abbrev pub mem : List String → String → Bool
mem set s = any (λ t. t == s) set

-- `none` is ErrUnknownKeyStatus.
unfoldable pub normalize_key_status : String → Option KeyStatus
normalize_key_status raw =
    let trimmed = to_lower (trim_space raw) in
    if trimmed == ""
    then some "active"
    else if not (mem allowed_key_statuses trimmed)
    then none
    else some trimmed

unfoldable pub is_usable : KeyStatus → Bool
is_usable s = s == "active"

pub record KeyRecord : Type 0 where
  pub tenant_id : String
  pub key_id : String
  pub algorithm : String
  pub status : KeyStatus
  pub activated_at : Time
  pub deactivated_at : Option Time

pub data ResolveError : Type 0 where
  key_not_active key_not_usable : ResolveError

-- `record.DeactivatedAt != nil && !signedAt.Before(*record.DeactivatedAt)`
unfoldable pub is_deactivated : Option Time → Time → Bool
is_deactivated none signed_at = false
is_deactivated (some t) signed_at = not (before signed_at t)

-- `none` is the nil error.
unfoldable pub resolve_key_at : Option KeyRecord → Time → Option ResolveError
resolve_key_at none signed_at = some key_not_active
resolve_key_at (some k) signed_at =
    if not (is_usable k.status)
    then some key_not_usable
    else if after k.activated_at signed_at
    then some key_not_active
    else if is_deactivated k.deactivated_at signed_at
    then some key_not_active
    else none

pub record SignatureEnvelope : Type 0 where
  pub alg : String
  pub key_id : String
  pub value : String

pub data EnvelopeError : Type 0 where
  nil_envelope missing_algorithm missing_key_id missing_value unsupported_alg : EnvelopeError

abbrev pub supported_algorithms : List String
supported_algorithms = "ed25519" ∷ "ecdsa-p256" ∷ "ecdsa-p384" ∷ []

unfoldable pub is_supported_algorithm : String → Bool
is_supported_algorithm alg = mem supported_algorithms (trim_space alg)

unfoldable pub validate_signature_envelope : Option SignatureEnvelope → Option EnvelopeError
validate_signature_envelope none = some nil_envelope
validate_signature_envelope (some env) =
    let alg = trim_space env.alg in
    if alg == ""
    then some missing_algorithm
    else if trim_space env.key_id == ""
    then some missing_key_id
    else if trim_space env.value == ""
    then some missing_value
    else if not (is_supported_algorithm alg)
    then some unsupported_alg
    else none
