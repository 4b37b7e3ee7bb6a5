-- ===== src/Crypto.antt =====
-- Policy signatures (pkg/crypto/verifier.go). The codecs and the curves of Go's library and of
-- golang.org/x/crypto are parameters.
pub mod Accepts
pub mod Fuel
pub mod Signer
pub mod SignVerify
use intentproof_tools.Prelude.{
  ℕ, zero, suc, ◌+◌, ◌*◌, ◌/◌, Bool, true, false, ◌&&◌, List, [], ◌∷◌, String, Option, none, some,
  ◌==◌, Eq-ℕ, Eq-String, if◌then◌else◌, length, take, drop, Result, err, ok, ◌>>=◌, ◌>>◌, or_err,
  guard,
}
use intentproof_tools.Prelude.Bytes.{bytes}
use intentproof_tools.Merkle.{Bytes}
use intentproof_tools.Policysig.{SignatureEnvelope}

-- An `elliptic.Curve`, and its `Params().BitSize`.
pub data Curve : Type 0 where
  p256 p384 : Curve
  other_curve : ℕ → Curve

unfoldable pub bit_size : Curve → ℕ
bit_size p256 = 256
bit_size p384 = 384
bit_size (other_curve n) = n

unfoldable pub same_curve : Curve → Curve → Bool
same_curve p256 p256 = true
same_curve p384 p384 = true
same_curve (other_curve m) (other_curve n) = m == n
same_curve _ _ = false

pub record EcdsaKey : Type 0 where
  pub curve : Curve
  pub x : ℕ
  pub y : ℕ

pub data PublicKey : Type 0 where
  ed25519_key : Bytes → PublicKey
  ecdsa_key : EcdsaKey → PublicKey
  other_key : PublicKey

-- What the code calls of other packages: base64.StdEncoding.DecodeString, pem.Decode,
-- ssh.ParseAuthorizedKey (with the key that it wraps), x509.ParsePKIXPublicKey, asn1.Unmarshal of two
-- integers with the bytes that are left, sha256.Sum256, ed25519.Verify and ecdsa.Verify.
pub record Primitives : Type 0 where
  pub sha256 : Bytes → Bytes
  pub base64_decode : Bytes → Option Bytes
  pub pem_decode : Bytes → Option Bytes
  pub parse_authorized_key : Bytes → Option PublicKey
  pub parse_pkix : Bytes → Option PublicKey
  pub asn1_integers : Bytes → Option (Option ℕ × Option ℕ × Bytes)
  pub ed25519_verify : Bytes → Bytes → Bytes → Bool
  pub ecdsa_verify : EcdsaKey → Bytes → ℕ → ℕ → Bool

pub data SignatureError : Type 0 where
  nil_envelope decode_signature parse_ed25519_key ed25519_failed : SignatureError
  parse_ecdsa_key parse_ecdsa_signature ecdsa_failed out_of_fuel : SignatureError
  unsupported_algorithm : String → SignatureError

-- `new(big.Int).SetBytes`
unfoldable pub set_bytes : ℕ → Bytes → ℕ
set_bytes n [] = n
set_bytes n (b ∷ bs) = set_bytes (n * 256 + b) bs

unfoldable pub as_ed25519 : Option PublicKey → Option Bytes
as_ed25519 (some (ed25519_key k)) = some k
as_ed25519 _ = none

-- `ecdsaPub.Curve == curve`
unfoldable pub as_ecdsa : Curve → Option PublicKey → Option EcdsaKey
unfolding same_curve
as_ecdsa curve (some (ecdsa_key k)) = if same_curve k.curve curve then some k else none
as_ecdsa curve _ = none

-- The uncompressed point of SEC1.
unfoldable pub sec1_point : Curve → Bytes → Option EcdsaKey
unfolding bit_size set_bytes
sec1_point curve [] = none
sec1_point curve (b ∷ bs) =
    let coord_len = bit_size curve / 8 in
    if length (b ∷ bs) == 1 + 2 * coord_len && b == 4
    then some (record {
      curve = curve;
      x = set_bytes 0 (take coord_len bs);
      y = set_bytes 0 (drop coord_len bs);
    })
    else none

-- The first of two attempts that succeeds.
abbrev pub or_else : {A : Type 0} → Option A → Option A → Option A
or_else (some a) o = some a
or_else none o = o

-- The length of a raw signature R || S.
unfoldable pub raw_length : Curve → Option ℕ
raw_length p256 = some 64
raw_length p384 = some 96
raw_length (other_curve n) = none

unfoldable pub raw_signature : Option ℕ → Bytes → Option (ℕ × ℕ)
unfolding set_bytes
raw_signature none sig = none
raw_signature (some expected) sig =
    if length sig == expected
    then some (set_bytes 0 (take (expected / 2) sig), set_bytes 0 (drop (expected / 2) sig))
    else none

unfoldable pub der_signature : Option (Option ℕ × Option ℕ × Bytes) → Option (ℕ × ℕ)
der_signature (some (some r, some s, [])) = some (r, s)
der_signature _ = none

module _ (prims : Primitives) where
  -- `if err == nil { pubKey = decoded }`
  unfoldable pub decoded_or_raw : Bytes → Bytes
  decoded_or_raw pub_key = elim (prims.base64_decode pub_key) [
    | some decoded ↦ decoded
    | none ↦ pub_key
  ]

  -- A PEM block is parsed in turn; it is shorter than the text that holds it.
  unfoldable pub parse_ed25519_public_key : ℕ → Bytes → Result SignatureError Bytes
  unfolding decoded_or_raw as_ed25519
  parse_ed25519_public_key zero pub_key = err out_of_fuel
  parse_ed25519_public_key (suc fuel) pub_key =
      let key = decoded_or_raw pub_key in
      if length pub_key == 32
      then ok pub_key
      else if length key == 32
      then ok key
      else elim (prims.pem_decode key) [
        | some block ↦ parse_ed25519_public_key fuel block
        | none ↦
            or_err
              (or_else (as_ed25519 (prims.parse_authorized_key key))
                (as_ed25519 (prims.parse_pkix key)))
              parse_ed25519_key
      ]

  -- `ParseEd25519PublicKey`
  unfoldable pub parse_ed25519 : Bytes → Result SignatureError Bytes
  unfolding parse_ed25519_public_key
  parse_ed25519 pub_key = parse_ed25519_public_key (suc (length pub_key)) pub_key

  unfoldable pub verify_ed25519 : Bytes → Bytes → Bytes → Result SignatureError (Unit {0})
  unfolding parse_ed25519
  verify_ed25519 digest sig pub_key = do
    key ← parse_ed25519 pub_key
    guard (prims.ed25519_verify key digest sig) ed25519_failed

  unfoldable pub parse_ecdsa_public_key : Curve → Bytes → Option EcdsaKey
  unfolding decoded_or_raw as_ecdsa sec1_point
  parse_ecdsa_public_key curve pub_key =
      let key = decoded_or_raw pub_key in
      or_else (as_ecdsa curve (prims.parse_pkix key)) (sec1_point curve key)

  unfoldable pub parse_signature : Curve → Bytes → Option (ℕ × ℕ)
  unfolding der_signature raw_signature raw_length
  parse_signature curve sig =
      or_else (der_signature (prims.asn1_integers sig)) (raw_signature (raw_length curve) sig)

  unfoldable pub verify_ecdsa : Curve → Bytes → Bytes → Bytes → Result SignatureError (Unit {0})
  unfolding parse_ecdsa_public_key parse_signature
  verify_ecdsa curve digest sig pub_key = do
    key ← or_err (parse_ecdsa_public_key curve pub_key) parse_ecdsa_key
    (r, s) ← or_err (parse_signature curve sig) parse_ecdsa_signature
    guard (prims.ecdsa_verify key digest r s) ecdsa_failed

  -- The `switch` on the algorithm.
  unfoldable pub verify_digest : String → Bytes → Bytes → Bytes → Result SignatureError (Unit {0})
  unfolding verify_ed25519 verify_ecdsa
  verify_digest alg digest sig pub_key =
      if alg == "ed25519"
      then verify_ed25519 digest sig pub_key
      else if alg == "ecdsa-p256"
      then verify_ecdsa p256 digest sig pub_key
      else if alg == "ecdsa-p384"
      then verify_ecdsa p384 digest sig pub_key
      else err (unsupported_algorithm alg)

  -- `PolicySignatureVerifier.Verify`
  unfoldable pub verify_signature :
      Bytes → Option SignatureEnvelope → Bytes → Result SignatureError (Unit {0})
  unfolding verify_digest bytes
  verify_signature payload none pub_key = err nil_envelope
  verify_signature payload (some env) pub_key = do
    sig ← or_err (prims.base64_decode (bytes env.value)) decode_signature
    verify_digest env.alg (prims.sha256 payload) sig pub_key
