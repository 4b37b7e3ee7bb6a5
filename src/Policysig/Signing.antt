-- ===== src/Policysig/Signing.antt =====
-- What signing adds to a policy does not change what is signed.
use intentproof_tools.Prelude.{String, Option, ◌≡◌, refl, ap, ◌∙◌}
use intentproof_tools.Merkle.{Bytes}
use intentproof_tools.Value.{Value, Fields, set, delete, Float64}
use intentproof_tools.Value.Lookup.{delete-set, delete-set_other}
use intentproof_tools.Canon.Es6.{Floats}
use intentproof_tools.Crypto.{Primitives}
use intentproof_tools.Policysig.{SignatureEnvelope}
use intentproof_tools.Policysig.Fingerprint.{
  without_signing, compute_fingerprint, canonicalize_policy, build_policy_sign_payload,
  verify_policy_signature,
}

-- The fields that are set when a policy is signed.
pub data SigningField : String → Type 0 where
  fingerprint : SigningField "policy_fingerprint"
  signature : SigningField "signature"
  signed_at : SigningField "signed_at"

without_signing-set :
    (k : String) (v : Value) (m : Fields)
    → SigningField k
    → without_signing (set k v m) ≡ without_signing m
unfolding without_signing
without_signing-set _ v m fingerprint =
    ap (λ n. delete "signed_at" (delete "signature" n)) (delete-set "policy_fingerprint" v m)
without_signing-set _ v m signature = ap (delete "signed_at") (
    ap (delete "signature") (delete-set_other "policy_fingerprint" "signature" v m refl)
    ∙ delete-set "signature" v (delete "policy_fingerprint" m))
without_signing-set _ v m signed_at =
    ap (delete "signed_at") (
      ap (delete "signature") (delete-set_other "policy_fingerprint" "signed_at" v m refl)
      ∙ delete-set_other "signature" "signed_at" v (delete "policy_fingerprint" m) refl)
    ∙ delete-set "signed_at" v (delete "signature" (delete "policy_fingerprint" m))

module _ (floats : Floats) (number_text : Float64 → String) where
  canonicalize_policy-set :
      (k : String) (v : Value) (m : Fields)
      → SigningField k
      → canonicalize_policy floats number_text (set k v m)
        ≡ canonicalize_policy floats number_text m
  unfolding canonicalize_policy
  canonicalize_policy-set k v m f = rw (without_signing-set k v m f) refl

  -- Setting the fingerprint, the signature or the time of signing, to any value, changes neither the
  -- fingerprint of a policy nor which signatures verify for it.
  pub SigningField-set :
      (k : String) (v : Value) (m : Fields)
      → SigningField k
      → ((sha256 : Bytes → Bytes)
          → compute_fingerprint floats number_text sha256 (set k v m)
            ≡ compute_fingerprint floats number_text sha256 m)
        × ((prims : Primitives) (env : Option SignatureEnvelope) (pub_key : Bytes)
            → verify_policy_signature floats number_text prims (set k v m) env pub_key
              ≡ verify_policy_signature floats number_text prims m env pub_key)
  unfolding compute_fingerprint verify_policy_signature build_policy_sign_payload
  SigningField-set k v m f =
      let e = canonicalize_policy-set k v m f in
      (λ sha256. rw e refl, λ prims env pub_key. rw e refl)
