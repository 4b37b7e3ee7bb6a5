-- ===== src/Scenarios/Keys.antt =====
-- Signing keys and signature envelopes through pkg/policysig.
use intentproof_tools.Prelude.{◌≡◌, ◌≢◌, ◌↔◌, refl, none, some}
use intentproof_tools.Prelude.Int.{pos}
use intentproof_tools.Policysig
use intentproof_tools.Policysig.{
  KeyStatus, KeyRecord, KeyStatus, SignatureEnvelope, resolve_key_at, key_not_active,
  key_not_usable, normalize_key_status, validate_signature_envelope, missing_algorithm,
  missing_key_id, missing_value, unsupported_alg, is_supported_algorithm,
}
use intentproof_tools.Policysig.Keys.{InWindow, resolve_key_at_decides}

abbrev key : KeyRecord
key = record {
  tenant_id = "acme";
  key_id = "k1";
  algorithm = "ed25519";
  status = "active";
  activated_at = pos 10;
  deactivated_at = some (pos 20);
}

resolve_key_at_decides_example :
    ((resolve_key_at (some key) (pos 20) ≡ none)
      ↔ ((key.status ≡ "active") × InWindow key (pos 20)))
    × ((resolve_key_at (some key) (pos 20) ≡ some key_not_usable) ↔ (key.status ≢ "active"))
    × ((resolve_key_at (some key) (pos 20) ≡ some key_not_active)
        ↔ ((key.status ≡ "active") × (¬ InWindow key (pos 20))))
resolve_key_at_decides_example = resolve_key_at_decides key (pos 20)

deactivated_at_the_bound : resolve_key_at (some key) (pos 20) ≡ some key_not_active
unfolding resolve_key_at Policysig.is_usable Policysig.is_deactivated
deactivated_at_the_bound = refl

abbrev revoked : KeyStatus
revoked = "revoked"

abbrev envelope : SignatureEnvelope
envelope = record { alg = " ed25519"; key_id = "k1"; value = " " }
