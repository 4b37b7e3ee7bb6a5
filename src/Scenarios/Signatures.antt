-- ===== src/Scenarios/Signatures.antt =====
-- Signatures of concrete policies, by toy primitives.
use intentproof_tools.Prelude.{
  ℕ, zero, suc, ◌++◌, take, drop, length, ◌≡◌, ◌↔◌, refl, [], ◌∷◌, Option, none, some, Bool, true,
  false, String, ok, ◌==◌, Eq-ℕ, if◌then◌else◌, ◌&&◌, nat_eq_iff,
}
use intentproof_tools.Prelude.Bytes.{bytes}
use intentproof_tools.Merkle.{Bytes}
use intentproof_tools.Value.{str, Fields, end, field, set}
use intentproof_tools.Canon.Es6.{Floats}
use intentproof_tools.Policysig.{SignatureEnvelope}
use intentproof_tools.Policysig.Fingerprint.{compute_fingerprint, verify_policy_signature}
use intentproof_tools.Policysig.Signing.{signature, SigningField-set}
use intentproof_tools.Crypto.{Primitives, verify_signature}
use intentproof_tools.Crypto.Accepts.{Signed, verify_signature_iff}
use intentproof_tools.Crypto.Signer.{
  SignerPrimitives, LocalSigner, local_signer, signer_from_base64, sign, public_key,
}
use intentproof_tools.Crypto.SignVerify.{verify_signature-sign}

-- A code of bytes as texts: each byte is written as that many a's and a b.
abbrev push : Option Bytes → Option Bytes
push none = none
push (some []) = none
push (some (n ∷ ns)) = some (suc n ∷ ns)

abbrev start : Option Bytes → Option Bytes
start none = none
start (some ns) = some (0 ∷ ns)

abbrev read_unary : Bytes → Option Bytes
read_unary [] = some []
read_unary (b ∷ bs) =
    let rest = read_unary bs in if b == 97 then push rest else if b == 98 then start rest else none

abbrev write_byte : ℕ → String → String
write_byte zero s = String.◌∷◌ "b" s
write_byte (suc n) s = String.◌∷◌ "a" (write_byte n s)

abbrev write_unary : Bytes → String
write_unary [] = ""
write_unary (n ∷ ns) = write_byte n (write_unary ns)

read-write_byte :
    (n : ℕ) (s : String) (ns : Bytes)
    → read_unary (bytes s) ≡ some ns
    → read_unary (bytes (write_byte n s)) ≡ some (n ∷ ns)
unfolding bytes
read-write_byte zero s ns e = rw e refl
read-write_byte (suc n) s ns e = rw (read-write_byte n s ns e) refl

read-write_unary : (ns : Bytes) → read_unary (bytes (write_unary ns)) ≡ some ns
unfolding bytes
read-write_unary [] = refl
read-write_unary (n ∷ ns) = read-write_byte n (write_unary ns) ns (read-write_unary ns)

-- A scheme in which a seed is its own public key, and a signature is the seed and the digest.
abbrev same_bytes : Bytes → Bytes → Bool
same_bytes [] [] = true
same_bytes (x ∷ xs) (y ∷ ys) = (x == y) && same_bytes xs ys
same_bytes _ _ = false

same_bytes_self : (xs : Bytes) → same_bytes xs xs ≡ true
same_bytes_self [] = refl
same_bytes_self (x ∷ xs) = let e = (nat_eq_iff x x).1 refl in rw (e, same_bytes_self xs) refl

abbrev prims : Primitives
prims = record {
  sha256 = λ b. b;
  base64_decode = read_unary;
  pem_decode = λ b. none;
  parse_authorized_key = λ b. none;
  parse_pkix = λ b. none;
  asn1_integers = λ b. none;
  ed25519_verify = λ key digest sig. same_bytes (key ++ digest) sig;
  ecdsa_verify = λ key digest r s. false;
}

abbrev signer_prims : SignerPrimitives
signer_prims = record {
  base64_encode = write_unary;
  base64_decode_text = λ s. some (bytes s);
  parse_raw_private_key = λ b. none;
  ed25519_sign = λ priv digest. take 32 priv ++ digest;
  load_config = false;
  kms_sign = λ key_id digest. none;
}

signs_with_seed :
    (priv digest : Bytes)
    → length priv ≡ 64
    → drop 32 priv ≡ take 32 priv
    → prims.ed25519_verify (drop 32 priv) digest (signer_prims.ed25519_sign priv digest) ≡ true
signs_with_seed priv digest l e = rw e (same_bytes_self (take 32 priv ++ digest))

-- 64 bytes.
abbrev key_text : String
key_text = "0123456789abcdef0123456789abcdef0123456789abcdef0123456789abcdef"

abbrev dev_signer : LocalSigner
dev_signer = record { private_key = bytes key_text; local_key_id = "local:dev" }

abbrev payload : Bytes
payload = 1 ∷ 0 ∷ 2 ∷ []

verify_signature-sign_example :
    (env : SignatureEnvelope) × (sign signer_prims (local_signer dev_signer) payload ≡ ok env)
    × (verify_signature prims payload (some env) (public_key dev_signer) ≡ ok tt)
unfolding signer_from_base64 public_key bytes
verify_signature-sign_example =
    verify_signature-sign prims signer_prims read-write_unary (λ seed. seed) signs_with_seed ""
      key_text dev_signer payload refl refl

-- 64 bytes whose second half is not the public key of the first are taken for a key too, and what they
-- sign does not verify.
abbrev mixed_text : String
mixed_text = "0123456789abcdef0123456789abcdef0123456789abcdef0123456789abcdee"

abbrev mixed_signer : LocalSigner
mixed_signer = record { private_key = bytes mixed_text; local_key_id = "local:dev" }

mixed_key_is_read : signer_from_base64 signer_prims "" mixed_text ≡ ok mixed_signer
unfolding signer_from_base64 bytes
mixed_key_is_read = refl

abbrev mixed_signature : Bytes
mixed_signature = signer_prims.ed25519_sign mixed_signer.private_key payload

mixed_signature_fails :
    prims.ed25519_verify (public_key mixed_signer) payload mixed_signature ≡ false
unfolding public_key bytes
mixed_signature_fails = refl

abbrev envelope : SignatureEnvelope
envelope = record { alg = "ed25519"; key_id = "k1"; value = "abbaab" }

verify_signature_iff_example : (verify_signature prims payload (some envelope) [] ≡ ok tt) ↔ (
    (sig : Bytes) × (read_unary (bytes "abbaab") ≡ some sig)
    × Signed prims "ed25519" payload sig [])
verify_signature_iff_example = verify_signature_iff prims payload envelope []

-- Without base64, so that no text is decoded to a longer one.
abbrev raw_prims : Primitives
raw_prims = record prims { base64_decode = λ b. none }

abbrev floats : Floats
floats = record { parse_float = λ s. none; format_e = λ f. "1e+00"; format_g = λ f. "1" }

abbrev policy : Fields
policy = field "id" (str "refunds") (field "signed_at" (str "today") end)

SigningField-set_example :
    ((sha256 : Bytes → Bytes)
      → compute_fingerprint floats (λ x. "0") sha256 (set "signature" (str "sig") policy)
        ≡ compute_fingerprint floats (λ x. "0") sha256 policy)
    × ((p : Primitives) (env : Option SignatureEnvelope) (pub_key : Bytes)
        → verify_policy_signature floats
            (λ x. "0")
            p
            (set "signature" (str "sig") policy)
            env
            pub_key
          ≡ verify_policy_signature floats (λ x. "0") p policy env pub_key)
SigningField-set_example =
    SigningField-set floats (λ x. "0") "signature" (str "sig") policy signature
