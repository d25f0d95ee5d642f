-- ===== src/Cmk.antt =====
-- cmk/key.go: key metadata and the four kinds of keys. A time is a number of nanoseconds; where the
-- source has a float64 of seconds, 0 stands for a date that is not set.
pub mod Algorithms
pub mod Aes
pub mod Signing
pub mod Yaml
pub mod Hmac
pub mod Encryption
pub mod Rsa
pub mod Generate
pub mod Context
pub mod Errors
use local_kms.Prelude.{
  ℕ, ◌*◌, Bool, true, false, not, ◌&&◌, ◌==◌, ltb, Text, codes, Option, List, ◌++◌, if◌then◌else◌,
}
use local_kms.Config.{Env, arn_prefix}
use local_kms.Clock.{second, unix}

pub data KeySpec : Type 0 where
  unset symmetric_default : KeySpec
  ecc_nist_p256 ecc_nist_p384 ecc_nist_p521 ecc_secp256k1 : KeySpec
  rsa_2048 rsa_3072 rsa_4096 : KeySpec
  hmac_224 hmac_256 hmac_384 hmac_512 : KeySpec
  other : Text → KeySpec

pub data EncryptionAlgorithm : Type 0 where
  unset symmetric_default oaep_sha_1 oaep_sha_256 : EncryptionAlgorithm
  other : Text → EncryptionAlgorithm

pub data SigningAlgorithm : Type 0 where
  ecdsa_sha_256 ecdsa_sha_384 ecdsa_sha_512 : SigningAlgorithm
  rsa_pss_sha_256 rsa_pss_sha_384 rsa_pss_sha_512 : SigningAlgorithm
  rsa_pkcs_sha_256 rsa_pkcs_sha_384 rsa_pkcs_sha_512 : SigningAlgorithm
  hmac_sha_224 hmac_sha_256 hmac_sha_384 hmac_sha_512 : SigningAlgorithm
  other : Text → SigningAlgorithm

pub data KeyState : Type 0 where
  unset enabled disabled pending_import pending_deletion unavailable : KeyState

pub data KeyUsage : Type 0 where
  unset encrypt_decrypt sign_verify generate_verify_mac : KeyUsage
  other : Text → KeyUsage

pub data KeyOrigin : Type 0 where
  unset aws_kms external aws_cloudhsm : KeyOrigin
  other : Text → KeyOrigin

pub data WrappingAlgorithm : Type 0 where
  unset pkcs1_v1_5 oaep_sha_1 oaep_sha_256 : WrappingAlgorithm
  other : Text → WrappingAlgorithm

pub data ExpirationModel : Type 0 where
  unset expires does_not_expire : ExpirationModel
  other : Text → ExpirationModel

pub record KeyMetadata : Type 0 where
  pub aws_account_id : Text
  pub arn : Text
  pub creation_date : ℕ
  pub deletion_date : ℕ
  pub description : Text
  pub enabled : Bool
  pub expiration_model : ExpirationModel
  pub key_id : Text
  pub key_manager : Text
  pub key_state : KeyState
  pub key_usage : KeyUsage
  pub multi_region : Bool
  pub origin : KeyOrigin
  pub valid_to : ℕ
  pub signing_algorithms : List SigningAlgorithm
  pub encryption_algorithms : List EncryptionAlgorithm
  pub mac_algorithms : List Text
  pub key_spec : KeySpec
  pub customer_master_key_spec : KeySpec

-- A private key is its bytes. `parameters_valid_to` is in seconds.
pub record ParametersForImport : Type 0 where
  pub parameters_valid_to : ℕ
  pub import_token : Text
  pub private_key : Text
  pub wrapping_algorithm : WrappingAlgorithm

-- `next_key_rotation` is `none` for the zero time.
pub record AesKey : Type 0 where
  pub metadata : KeyMetadata
  pub policy : Text
  pub backing_keys : List Text
  pub next_key_rotation : Option ℕ
  pub parameters_for_import : ParametersForImport
  pub on_demand_rotation_count : ℕ

pub record HmacKey : Type 0 where
  pub metadata : KeyMetadata
  pub policy : Text
  pub backing_keys : List Text
  pub next_key_rotation : Option ℕ
  pub parameters_for_import : ParametersForImport

pub record EccKey : Type 0 where
  pub metadata : KeyMetadata
  pub policy : Text
  pub private_key : Text

pub record RsaKey : Type 0 where
  pub metadata : KeyMetadata
  pub policy : Text
  pub private_key : Text

pub data Key : Type 0 where
  aes : AesKey → Key
  rsa : RsaKey → Key
  ecc : EccKey → Key
  hmac : HmacKey → Key

abbrev pub get_metadata : Key → KeyMetadata
get_metadata (aes k) = k.metadata
get_metadata (rsa k) = k.metadata
get_metadata (ecc k) = k.metadata
get_metadata (hmac k) = k.metadata

-- A write through the pointer that `GetMetadata` returns.
abbrev pub set_metadata : Key → KeyMetadata → Key
set_metadata (aes k) m = aes (record k { metadata = m })
set_metadata (rsa k) m = rsa (record k { metadata = m })
set_metadata (ecc k) m = ecc (record k { metadata = m })
set_metadata (hmac k) m = hmac (record k { metadata = m })

abbrev pub get_arn : Key → Text
get_arn k = (get_metadata k).arn

abbrev pub is_unset : KeyOrigin → Bool
is_unset KeyOrigin.unset = true
is_unset _ = false

abbrev pub is_external : KeyOrigin → Bool
is_external KeyOrigin.external = true
is_external _ = false

unfoldable pub is_pending_deletion : Env → KeyMetadata → Bool
unfolding unix
is_pending_deletion env m =
    not (m.deletion_date == 0) && ltb m.deletion_date (unix env.now * second)

unfoldable pub initialize : Env → Text → KeyMetadata → KeyMetadata
initialize env key_id m = record m {
  key_id = key_id;
  arn = arn_prefix env ++ (codes "key/" ++ key_id);
  aws_account_id = env.aws_account_id;
  creation_date = env.now;
  enabled = true;
  key_manager = codes "CUSTOMER";
  key_state = KeyState.enabled;
  origin = if is_unset m.origin then KeyOrigin.aws_kms else m.origin;
}
