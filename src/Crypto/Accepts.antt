-- ===== src/Crypto/Accepts.antt =====
-- Which signatures `Verify` accepts.
use text.Mathlib.TextEquality.{eq_iff}
use intentproof_tools.Prelude.{
  ℕ, ◌≡◌, ◌↔◌, ◌⊎◌, inl, inr, refl, true, String, some, ◌==◌, Eq-String, ok, or_err, bind-ok,
  guard-ok, or_err-ok, err-not-ok, Bool-cases, subst, sym,
}
use intentproof_tools.Prelude.Bytes.{bytes}
use intentproof_tools.Merkle.{Bytes}
use intentproof_tools.Policysig.{SignatureEnvelope}
use intentproof_tools.Crypto.{
  Primitives, Curve, p256, p384, EcdsaKey, parse_ed25519, parse_ecdsa_public_key, parse_signature,
  verify_ed25519, verify_ecdsa, verify_digest, verify_signature,
}

module _ (prims : Primitives) where
  -- An Ed25519 signature of the digest under the key that was parsed.
  abbrev pub SignedByEd25519 : Bytes → Bytes → Bytes → Type 0
  SignedByEd25519 digest sig pub_key =
      (key : Bytes) × (parse_ed25519 prims pub_key ≡ ok key)
      × (prims.ed25519_verify key digest sig ≡ true)

  -- An ECDSA signature on the curve, its key and its two numbers parsed.
  abbrev pub SignedByEcdsa : Curve → Bytes → Bytes → Bytes → Type 0
  SignedByEcdsa curve digest sig pub_key =
      (key : EcdsaKey) × (r : ℕ) × (s : ℕ) × (parse_ecdsa_public_key prims curve pub_key ≡ some key)
      × (parse_signature prims curve sig ≡ some (r, s))
      × (prims.ecdsa_verify key digest r s ≡ true)

  abbrev pub Signed : String → Bytes → Bytes → Bytes → Type 0
  Signed alg digest sig pub_key =
      ((alg ≡ "ed25519") × SignedByEd25519 digest sig pub_key)
      ⊎ (((alg ≡ "ecdsa-p256") × SignedByEcdsa p256 digest sig pub_key)
          ⊎ ((alg ≡ "ecdsa-p384") × SignedByEcdsa p384 digest sig pub_key))

  ed25519_iff :
      (digest sig pub_key : Bytes)
      → (verify_ed25519 prims digest sig pub_key ≡ ok tt) ↔ SignedByEd25519 digest sig pub_key
  unfolding verify_ed25519
  ed25519_iff digest sig pub_key = (
    λ h. let (k, e, g) = bind-ok (parse_ed25519 prims pub_key) _ tt h in (k, e, guard-ok _ _ g),
    λ (k, e, g). rw (e, g) refl,
  )

  ecdsa_iff :
      (curve : Curve) (digest sig pub_key : Bytes)
      → (verify_ecdsa prims curve digest sig pub_key ≡ ok tt)
        ↔ SignedByEcdsa curve digest sig pub_key
  unfolding verify_ecdsa
  ecdsa_iff curve digest sig pub_key = (
    λ h.
        let (k, e, g) = bind-ok (or_err (parse_ecdsa_public_key prims curve pub_key) _) _ tt h in
        let (rs, f, q) = bind-ok (or_err (parse_signature prims curve sig) _) _ tt g in
        (k, rs.0, rs.1, or_err-ok _ _ k e, or_err-ok _ _ rs f, guard-ok _ _ q),
    λ (k, r, s, e, f, g). rw (e, f, g) refl,
  )

  digest_sound :
      (alg : String) (digest sig pub_key : Bytes)
      → verify_digest prims alg digest sig pub_key ≡ ok tt
      → Signed alg digest sig pub_key
  unfolding verify_digest
  digest_sound alg digest sig pub_key h = elim (Bool-cases (alg == "ed25519")) [
    | inl e ↦ inl ((eq_iff alg "ed25519").0 e, (ed25519_iff digest sig pub_key).0 (rw e at h))
    | inr e ↦ elim (Bool-cases (alg == "ecdsa-p256")) [
      | inl f ↦ inr (
          inl
            ((eq_iff alg "ecdsa-p256").0 f, (ecdsa_iff p256 digest sig pub_key).0 (rw (e, f) at h)))
      | inr f ↦ elim (Bool-cases (alg == "ecdsa-p384")) [
        | inl g ↦ inr (
            inr (
              (eq_iff alg "ecdsa-p384").0 g,
              (ecdsa_iff p384 digest sig pub_key).0 (rw (e, f, g) at h),
            ))
        | inr g ↦ absurd (err-not-ok (rw (e, f, g) at h))
      ]
    ]
  ]

  digest_complete :
      (alg : String) (digest sig pub_key : Bytes)
      → Signed alg digest sig pub_key
      → verify_digest prims alg digest sig pub_key ≡ ok tt
  unfolding verify_digest
  digest_complete alg digest sig pub_key (inl (q, s)) =
      subst (λ a. verify_digest prims a digest sig pub_key ≡ ok tt) (sym q)
        ((ed25519_iff digest sig pub_key).1 s)
  digest_complete alg digest sig pub_key (inr (inl (q, s))) =
      subst (λ a. verify_digest prims a digest sig pub_key ≡ ok tt) (sym q)
        ((ecdsa_iff p256 digest sig pub_key).1 s)
  digest_complete alg digest sig pub_key (inr (inr (q, s))) =
      subst (λ a. verify_digest prims a digest sig pub_key ≡ ok tt) (sym q)
        ((ecdsa_iff p384 digest sig pub_key).1 s)

  -- Verify accepts an envelope just if its value is base64 of a signature over the digest of the payload,
  -- by the algorithm that it names, under the key that the public key parses to.
  pub verify_signature_iff :
      (payload : Bytes) (env : SignatureEnvelope) (pub_key : Bytes)
      → (verify_signature prims payload (some env) pub_key ≡ ok tt) ↔ (
          (sig : Bytes) × (prims.base64_decode (bytes env.value) ≡ some sig)
          × Signed env.alg (prims.sha256 payload) sig pub_key)
  unfolding verify_signature
  verify_signature_iff payload env pub_key = (
    λ h.
        let (sig, e, g) = bind-ok (or_err (prims.base64_decode (bytes env.value)) _) _ tt h in
        (sig, or_err-ok _ _ sig e, digest_sound env.alg (prims.sha256 payload) sig pub_key g),
    λ (sig, e, s). rw e (digest_complete env.alg (prims.sha256 payload) sig pub_key s),
  )
