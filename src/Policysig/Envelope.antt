-- ===== src/Policysig/Envelope.antt =====
-- What `ValidateSignatureEnvelope` accepts, and which of several faults it reports.
use text.Mathlib.TextEquality.{eq_iff}
use intentproof_tools.Prelude.{◌≡◌, ◌≢◌, ◌↔◌, true, none, some, Eq-String, trim_space, arith}
use intentproof_tools.Policysig.{
  SignatureEnvelope, missing_algorithm, missing_key_id, missing_value, unsupported_alg,
  is_supported_algorithm, validate_signature_envelope,
}

-- An envelope passes just if its key id and its value are not blank and its algorithm is a supported
-- one. Of several faults the first of algorithm, key id, value and unsupported algorithm is reported.
pub validate_signature_envelope_decides :
    (env : SignatureEnvelope)
    → let alg = trim_space env.alg in
      ((validate_signature_envelope (some env) ≡ none) ↔ (
        (is_supported_algorithm alg ≡ true)
        × (alg ≢ "")
        × (trim_space env.key_id ≢ "")
        × (trim_space env.value ≢ "")))
      × ((validate_signature_envelope (some env) ≡ some missing_algorithm) ↔ (alg ≡ ""))
      × ((validate_signature_envelope (some env) ≡ some missing_key_id)
          ↔ ((alg ≢ "") × (trim_space env.key_id ≡ "")))
      × ((validate_signature_envelope (some env) ≡ some missing_value)
          ↔ ((alg ≢ "") × (trim_space env.key_id ≢ "") × (trim_space env.value ≡ "")))
      × ((validate_signature_envelope (some env) ≡ some unsupported_alg) ↔ (
          (is_supported_algorithm alg ≢ true)
          × (alg ≢ "")
          × (trim_space env.key_id ≢ "")
          × (trim_space env.value ≢ "")))
unfolding validate_signature_envelope
validate_signature_envelope_decides env = ground (
  arith,
  eq_iff (trim_space env.alg) "",
  eq_iff (trim_space env.key_id) "",
  eq_iff (trim_space env.value) "",
)
