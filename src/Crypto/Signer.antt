-- ===== src/Crypto/Signer.antt =====
-- Policy signers (pkg/crypto/signer.go, local_signer.go, kms_signer.go). The environment's variables are
-- arguments; AWS KMS, base64, the parser of private keys and ed25519.Sign are parameters.
use intentproof_tools.Prelude.{
  ℕ, Bool, not, String, Option, none, some, ◌==◌, Eq-ℕ, Eq-String, if◌then◌else◌, length, drop,
  Result, err, ok, ◌>>=◌, ◌>>◌, or_err, guard, trim_space,
}
use intentproof_tools.Merkle.{Bytes}
use intentproof_tools.Policysig.{SignatureEnvelope}

-- What `ssh.ParseRawPrivateKey` returns: an ed25519.PrivateKey, or a pointer to one, or another key.
pub data RawPrivateKey : Type 0 where
  ed25519_private ed25519_pointer : Bytes → RawPrivateKey
  other_private : RawPrivateKey

pub record SignerPrimitives : Type 0 where
  pub base64_encode : Bytes → String
  pub base64_decode_text : String → Option Bytes
  pub parse_raw_private_key : Bytes → Option RawPrivateKey
  pub ed25519_sign : Bytes → Bytes → Bytes
  -- Whether `config.LoadDefaultConfig` succeeds, and KMS' Sign with a key id and a digest.
  pub load_config : Bool
  pub kms_sign : String → Bytes → Option Bytes

pub record LocalSigner : Type 0 where
  pub private_key : Bytes
  pub local_key_id : String

pub data PolicySigner : Type 0 where
  local_signer : LocalSigner → PolicySigner
  kms_signer : String → PolicySigner

pub data SignerError : Type 0 where
  decode_signing_key parse_signing_key not_ed25519 key_id_required load_aws_config : SignerError
  kms_sign_failed : SignerError
  key_size digest_length : ℕ → SignerError

-- The two type assertions.
unfoldable pub as_private : RawPrivateKey → Option Bytes
as_private (ed25519_private k) = some k
as_private (ed25519_pointer k) = some k
as_private other_private = none

abbrev pub algorithm : PolicySigner → String
algorithm (local_signer s) = "ed25519"
algorithm (kms_signer key_id) = "ecdsa-p256"

abbrev pub signer_key_id : PolicySigner → String
signer_key_id (local_signer s) = s.local_key_id
signer_key_id (kms_signer key_id) = key_id

-- `PublicKey`: the last 32 of the 64 bytes.
unfoldable pub public_key : LocalSigner → Bytes
public_key s = drop 32 s.private_key

module _ (prims : SignerPrimitives) where
  -- Not 64 raw bytes: the key of an OpenSSH file.
  unfoldable pub parsed_key : Bytes → Result SignerError Bytes
  unfolding as_private
  parsed_key decoded = do
    raw ← or_err (prims.parse_raw_private_key decoded) parse_signing_key
    or_err (as_private raw) not_ed25519

  unfoldable pub private_of : Bytes → Result SignerError Bytes
  unfolding parsed_key
  private_of decoded = if length decoded == 64 then ok decoded else parsed_key decoded

  -- `NewLocalEd25519PolicySignerFromBase64`, with INTENTPROOF_POLICY_SIGNING_KEY_ID
  unfoldable pub signer_from_base64 : String → String → Result SignerError LocalSigner
  unfolding private_of
  signer_from_base64 key_id_env key_b64 = do
    decoded ← or_err (prims.base64_decode_text key_b64) decode_signing_key
    priv ← private_of decoded
    guard (length priv == 64) (key_size (length priv))
    ok (record {
      private_key = priv;
      local_key_id = if key_id_env == "" then "local:dev" else key_id_env;
    })

  -- `NewKMSPolicySigner`
  unfoldable pub new_kms_signer : String → Result SignerError PolicySigner
  new_kms_signer key_id = do
    guard (not (key_id == "")) key_id_required
    guard prims.load_config load_aws_config
    ok (kms_signer key_id)

  abbrev as_signer : Result SignerError LocalSigner → Result SignerError (Option PolicySigner)
  as_signer (err e) = err e
  as_signer (ok s) = ok (some (local_signer s))

  abbrev as_some : Result SignerError PolicySigner → Result SignerError (Option PolicySigner)
  as_some (err e) = err e
  as_some (ok s) = ok (some s)

  -- `NewPolicySignerFromEnv`, of INTENTPROOF_KMS_KEY_ID and INTENTPROOF_POLICY_SIGNING_KEY_B64
  unfoldable pub signer_from_env :
      String → String → String → Result SignerError (Option PolicySigner)
  unfolding signer_from_base64 new_kms_signer
  signer_from_env kms_key_id_env key_b64_env key_id_env =
      let kms_key_id = trim_space kms_key_id_env in
      let key_b64 = trim_space key_b64_env in
      if not (kms_key_id == "")
      then as_some (new_kms_signer kms_key_id)
      else if not (key_b64 == "")
      then as_signer (signer_from_base64 key_id_env key_b64)
      else ok none

  abbrev envelope : PolicySigner → Bytes → SignatureEnvelope
  envelope s sig = record {
    alg = algorithm s;
    key_id = signer_key_id s;
    value = prims.base64_encode sig;
  }

  -- `Sign`, of both signers
  unfoldable pub sign : PolicySigner → Bytes → Result SignerError SignatureEnvelope
  sign (local_signer s) digest =
      ok (envelope (local_signer s) (prims.ed25519_sign s.private_key digest))
  sign (kms_signer key_id) digest = do
    guard (length digest == 32) (digest_length (length digest))
    sig ← or_err (prims.kms_sign key_id digest) kms_sign_failed
    ok (envelope (kms_signer key_id) sig)
