-- ===== src/Crypto/SignVerify.antt =====
-- Signing with a local signer, and verifying (pkg/crypto/local_signer.go, verifier.go).
use intentproof_tools.Prelude.{
  ◌≡◌, refl, ap, sym, ◌∙◌, some, true, String, length, take, drop, length-drop, ok, Eq-ℕ, ◌==◌,
  nat_eq_iff, arith, bind-ok, then-ok, guard-ok, guard, or_err, ok-injective, inl,
}
use intentproof_tools.Prelude.Bytes.{bytes}
use intentproof_tools.Merkle.{Bytes}
use intentproof_tools.Policysig.{SignatureEnvelope}
use intentproof_tools.Crypto.{Primitives, parse_ed25519, parse_ed25519_public_key, verify_signature}
use intentproof_tools.Crypto.Accepts.{verify_signature_iff}
use intentproof_tools.Crypto.Signer.{
  SignerPrimitives, LocalSigner, local_signer, public_key, private_of, signer_from_base64, sign,
}

-- A signer that was read from base64 has a key of 64 bytes.
pub signer_from_base64-length :
    (prims : SignerPrimitives) (key_id_env key_b64 : String) (s : LocalSigner)
    → signer_from_base64 prims key_id_env key_b64 ≡ ok s
    → length s.private_key ≡ 64
unfolding signer_from_base64
signer_from_base64-length prims key_id_env key_b64 s h =
    let (d, e, g) = bind-ok (or_err (prims.base64_decode_text key_b64) _) _ s h in
    let (k, f, i) = bind-ok (private_of prims d) _ s g in
    let (j, l) = then-ok (guard (length k == 64) _) _ s i in
    ap (λ t. length t.private_key) (sym (ok-injective l))
    ∙ (nat_eq_iff (length k) 64).0 (guard-ok _ _ j)

-- A raw key of 32 bytes is taken as it is.
parse_ed25519-raw :
    (prims : Primitives) (key : Bytes) → length key ≡ 32 → parse_ed25519 prims key ≡ ok key
unfolding parse_ed25519 parse_ed25519_public_key
parse_ed25519-raw prims key h = rw ((nat_eq_iff (length key) 32).1 h) refl

-- A local signer is read from base64, and the second half of its key is the public key of the seed, which
-- is the first half. What it signs over the digest of a payload, the verifier accepts for the payload under
-- the signer's public key, if base64 decodes what it encodes and Ed25519 verifies what such a key signs.
pub verify_signature-sign :
    (prims : Primitives) (signer : SignerPrimitives)
    → ((b : Bytes) → prims.base64_decode (bytes (signer.base64_encode b)) ≡ some b)
    → (public_of_seed : Bytes → Bytes)
    → ((priv digest : Bytes)
        → length priv ≡ 64
        → drop 32 priv ≡ public_of_seed (take 32 priv)
        → prims.ed25519_verify (drop 32 priv) digest (signer.ed25519_sign priv digest) ≡ true)
    → (key_id_env key_b64 : String) (s : LocalSigner) (payload : Bytes)
    → signer_from_base64 signer key_id_env key_b64 ≡ ok s
    → public_key s ≡ public_of_seed (take 32 s.private_key)
    → (env : SignatureEnvelope) × (sign signer (local_signer s) (prims.sha256 payload) ≡ ok env)
      × (verify_signature prims payload (some env) (public_key s) ≡ ok tt)
unfolding sign public_key
verify_signature-sign prims signer codec public_of_seed signs key_id_env key_b64 s payload h e =
    let l = signer_from_base64-length signer key_id_env key_b64 s h in
    let sig = signer.ed25519_sign s.private_key (prims.sha256 payload) in
    let env : SignatureEnvelope = record {
      alg = "ed25519";
      key_id = s.local_key_id;
      value = signer.base64_encode sig;
    } in
    (
      env,
      refl,
      (verify_signature_iff prims payload env (drop 32 s.private_key)).1 (
        sig,
        codec sig,
        inl (
          refl,
          (
            drop 32 s.private_key,
            parse_ed25519-raw prims (drop 32 s.private_key)
                (omega (arith, l, length-drop 32 s.private_key)),
            signs s.private_key (prims.sha256 payload) l e,
          ),
        ),
      ),
    )
