-- ===== src/Bundle/Valid.antt =====
-- When the signature of an object of a bundle is called valid.
use mathlib.Core.Bool.{false≢true}
use text.Mathlib.TextEquality.{eq_iff}
use intentproof_tools.Prelude.{
  Bool, true, false, List, ◌≡◌, ◌↔◌, refl, sym, ◌∙◌, ap, String, Option, none, some, ◌==◌,
  Eq-String, Result, err, ok, ok-injective, err-not-ok, Bool-cases, inl, inr, trim_space, arith,
}
use intentproof_tools.Merkle.{Bytes}
use intentproof_tools.Value.{Fields}
use intentproof_tools.Policysig.{SignatureEnvelope}
use intentproof_tools.Canon.Encode.{MarshalError}
use intentproof_tools.Crypto.{SignatureError, parse_ed25519}
use intentproof_tools.Bundle.{Bundle, Env, BundleError, lookup}
use intentproof_tools.Bundle.Manifests.{canonical_signed_map}
use intentproof_tools.Bundle.Signatures.{
  Envelope, absent, broken, found, signature_envelope_from_map, decode_signature_value, Verdict,
  unsigned, decode_failed, unsupported_alg, key_unavailable, valid, with_payload, with_signature,
  with_key, with_raw_key, with_envelope, verdict_of,
}

abbrev is_valid : Verdict → Bool
is_valid valid = true
is_valid _ = false

not_valid :
    (v : Verdict) → is_valid v ≡ false → ¬ (◌≡◌ {A = Result BundleError Verdict} (ok v) (ok valid))
not_valid v h k = false≢true (sym h ∙ ap is_valid (ok-injective k))

module _ (env : Env) where
  -- The document has an envelope of Ed25519 whose key is one of the bundle's, and the signature verifies
  -- over the canonical form of the document without the excluded fields.
  pub record ValidlySigned (b : Bundle) (field_name : String) (doc : Fields)
      (excluded : List String) : Type 0 where
    pub envelope : SignatureEnvelope
    pub raw : Bytes
    pub pub_key : Bytes
    pub sig : Bytes
    pub payload : Bytes
    pub is_found : signature_envelope_from_map env.decode_envelope doc field_name ≡ found envelope
    pub not_blank : (trim_space envelope.value == "") ≡ false
    pub is_ed25519 : envelope.alg ≡ "ed25519"
    pub has_key : lookup envelope.key_id b.public_keys ≡ some raw
    pub parses : parse_ed25519 env.prims raw ≡ ok pub_key
    pub decodes : decode_signature_value env.prims.base64_decode envelope.value ≡ some sig
    pub canonical : canonical_signed_map env doc excluded ≡ ok payload
    pub verifies : env.prims.ed25519_verify pub_key (env.prims.sha256 payload) sig ≡ true

  valid_complete :
      (b : Bundle) (label field_name : String) (doc : Fields) (excluded : List String)
      → ValidlySigned b field_name doc excluded
      → verdict_of env b label field_name doc excluded ≡ ok valid
  unfolding verdict_of
  valid_complete b label field_name doc excluded v =
      let a = (eq_iff v.envelope.alg "ed25519").1 v.is_ed25519 in
      rw (v.is_found, v.not_blank, a, v.has_key, v.parses, v.decodes, v.canonical, v.verifies) refl

  -- The steps back from the verdict.
  of_payload :
      (label : String) (k sig : Bytes) (p : Result MarshalError Bytes)
      → with_payload env label k sig p ≡ ok valid
      → (payload : Bytes) × (p ≡ ok payload)
        × (env.prims.ed25519_verify k (env.prims.sha256 payload) sig ≡ true)
  of_payload label k sig (err e) h = absurd (err-not-ok h)
  of_payload label k sig (ok payload) h = (payload, refl, ground arith)

  of_signature :
      (label : String) (p : Result MarshalError Bytes) (k : Bytes) (o : Option Bytes)
      → with_signature env label p k o ≡ ok valid
      → (sig : Bytes) × (o ≡ some sig) × (with_payload env label k sig p ≡ ok valid)
  of_signature label p k none h = absurd (not_valid decode_failed refl h)
  of_signature label p k (some sig) h = (sig, refl, h)

  of_key :
      (label : String) (p : Result MarshalError Bytes) (o : Option Bytes)
      (r : Result SignatureError Bytes)
      → with_key env label p o r ≡ ok valid
      → (k : Bytes) × (r ≡ ok k) × (with_signature env label p k o ≡ ok valid)
  of_key label p o (err e) h = absurd (not_valid key_unavailable refl h)
  of_key label p o (ok k) h = (k, refl, h)

  of_raw_key :
      (label : String) (p : Result MarshalError Bytes) (o r : Option Bytes)
      → with_raw_key env label p o r ≡ ok valid
      → (raw : Bytes) × (r ≡ some raw)
        × (with_key env label p o (parse_ed25519 env.prims raw) ≡ ok valid)
  of_raw_key label p o none h = absurd (not_valid key_unavailable refl h)
  of_raw_key label p o (some raw) h = (raw, refl, h)

  of_envelope :
      (b : Bundle) (label : String) (p : Result MarshalError Bytes) (e : Envelope)
      → with_envelope env b label p e ≡ ok valid
      → (envelope : SignatureEnvelope) × (e ≡ found envelope)
        × ((trim_space envelope.value == "") ≡ false)
        × (envelope.alg ≡ "ed25519")
        × (with_raw_key env label p
              (decode_signature_value env.prims.base64_decode envelope.value)
              (lookup envelope.key_id b.public_keys)
            ≡ ok valid)
  of_envelope b label p absent h = absurd (not_valid unsigned refl h)
  of_envelope b label p broken h = absurd (not_valid decode_failed refl h)
  of_envelope b label p (found e) h = elim (Bool-cases (trim_space e.value == "")) [
    | inl a ↦ absurd (not_valid unsigned refl (rw a at h))
    | inr a ↦ elim (Bool-cases (e.alg == "ed25519")) [
      | inr c ↦ absurd (not_valid unsupported_alg refl (rw (a, c) at h))
      | inl c ↦ (e, refl, a, (eq_iff e.alg "ed25519").0 c, rw (a, c) at h)
    ]
  ]

  valid_sound :
      (b : Bundle) (label field_name : String) (doc : Fields) (excluded : List String)
      → verdict_of env b label field_name doc excluded ≡ ok valid
      → ValidlySigned b field_name doc excluded
  unfolding verdict_of
  valid_sound b label field_name doc excluded h =
      let p = canonical_signed_map env doc excluded in
      let (e, found_e, blank, alg, h₁) =
        of_envelope b label p (signature_envelope_from_map env.decode_envelope doc field_name) h in
      let o = decode_signature_value env.prims.base64_decode e.value in
      let (raw, has, h₂) = of_raw_key label p o (lookup e.key_id b.public_keys) h₁ in
      let (k, parsed, h₃) = of_key label p o (parse_ed25519 env.prims raw) h₂ in
      let (sig, decoded, h₄) = of_signature label p k o h₃ in
      let (payload, canonical_p, verified) = of_payload label k sig p h₄ in
      record {
        envelope = e;
        raw = raw;
        pub_key = k;
        sig = sig;
        payload = payload;
        is_found = found_e;
        not_blank = blank;
        is_ed25519 = alg;
        has_key = has;
        parses = parsed;
        decodes = decoded;
        canonical = canonical_p;
        verifies = verified;
      }

  -- The signature of an object is called valid just if the object has an envelope that is not blank, of
  -- Ed25519, with a key of the bundle that parses, and the decoded signature verifies over the digest of
  -- the canonical form of the object without the excluded fields.
  pub verdict_valid_iff :
      (b : Bundle) (label field_name : String) (doc : Fields) (excluded : List String)
      → (verdict_of env b label field_name doc excluded ≡ ok valid)
        ↔ ValidlySigned b field_name doc excluded
  verdict_valid_iff b label field_name doc excluded =
      (valid_sound b label field_name doc excluded, valid_complete b label field_name doc excluded)
