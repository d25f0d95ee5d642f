-- ===== src/Handler/DataKeys.antt =====
-- handler/generate_data_key.go, generate_data_key_without_plaintext.go, generate_data_key_pair.go,
-- generate_data_key_pair_without_plaintext.go and generate_random.go.
pub mod Roundtrip
use local_kms.Prelude.{
  ℕ, suc, ◌-◌, not, ◌&&◌, ◌||◌, Bool, true, false, ltb, below, above, to_nat, ℤ, pos, Text, text_eq,
  codes, is_empty, length, Option, none, some, List, [], ◌∷◌, if◌then◌else◌,
}
use local_kms.Config.{Env}
use local_kms.Result.{Result, ok, err, panic}
use local_kms.Exec.{Exec, pure, raise, lift, raise_if, ◌>>=◌, ◌>>◌}
use local_kms.Service.Safeconv.{to_unsigned}
use local_kms.Service.Ciphertext.{Blob, Refused, unpack_ciphertext_blob}
use local_kms.Cmk.{
  Key, AesKey, KeySpec, KeyUsage, EncryptionAlgorithm, aes, get_metadata, get_arn, oaep_sha_1,
  oaep_sha_256,
}
use local_kms.Cmk.Errors.{CmkError}
use local_kms.Cmk.Context.{Context}
use local_kms.Cmk.Encryption
use local_kms.Cmk.Encryption.{Aead, encrypt_and_package}
use local_kms.Cmk.Rsa
use local_kms.Cmk.Rsa.{Oaep}
use local_kms.Data.Backend.{Backend}
use local_kms.Handler.Responses.{
  Exception, Api, require, missing_parameter, validation, invalid_key_usage, invalid_ciphertext,
  access_denied, internal_failure,
}
use local_kms.Cmk.Generate.{Generators}
use local_kms.Handler.KeyPairs.{pair_kind, make_pair}
use local_kms.Handler.Lookup.{get_usable_key}
use local_kms.Handler.Crypto.{is_sign_verify, or_exception}
use local_kms.Handler.Signing.{Encodings, or_internal}

pub record DataKey : Type 0 where
  pub key_id : Text
  pub plaintext : Text
  pub ciphertext_blob : Text

-- The switch on the kind of the key; only symmetric keys make data keys.
module _ (env : Env) (gcm : Aead) where
  abbrev pub wrap_data_key : Key → Text → Context → Result Exception Text
  wrap_data_key (aes k) p c = or_exception internal_failure (encrypt_and_package gcm env k p c)
  wrap_data_key k p c = err invalid_key_usage

-- AES_128 and AES_256 are 16 and 32 bytes; a number of bytes is given in their place.
abbrev pub data_key_bytes : Option Text → Option ℤ → Result Exception ℕ
data_key_bytes (some spec) number =
    if text_eq spec (codes "AES_128")
    then ok 16
    else if text_eq spec (codes "AES_256")
    then ok 32
    else err validation
data_key_bytes none (some n) = to_unsigned 16 n
data_key_bytes none none = panic

abbrev pub out_of_bounds : Option ℤ → Bool
out_of_bounds none = false
out_of_bounds (some n) = below n 1 || above n 1024

abbrev pub is_some : {A : Type 0} → Option A → Bool
is_some none = false
is_some (some a) = true

module _ (B : Backend) (env : Env) (gcm : Aead) where
  -- The spec is `none` where it is empty. The plaintext is the draw 4 on behalf of the key.
  unfoldable pub generate_data_key : Option Text → Option Text → Option ℤ → Context → Api B DataKey
  generate_data_key key_id spec number context = do
    id ← require key_id missing_parameter
    raise_if (not (is_some number) && not (is_some spec)) validation
    raise_if (is_some number && is_some spec) validation
    raise_if (out_of_bounds number) validation
    n ← lift (data_key_bytes spec number)
    key ← get_usable_key B env id
    let p = env.random (get_arn key) 4 n
    blob ← lift (wrap_data_key env gcm key p context)
    pure (record { key_id = get_arn key; plaintext = p; ciphertext_blob = blob })

  unfoldable pub generate_data_key_without_plaintext :
      Option Text → Option Text → Option ℤ → Context → Api B DataKey
  generate_data_key_without_plaintext key_id spec number context = do
    k ← generate_data_key key_id spec number context
    pure (record k { plaintext = [] })

pub record DataKeyPair : Type 0 where
  pub key_id : Text
  pub key_pair_spec : KeySpec
  pub private_key_ciphertext_blob : Text
  pub private_key_plaintext : Text
  pub public_key : Text

abbrev pub is_unset : KeySpec → Bool
is_unset KeySpec.unset = true
is_unset _ = false

module _ (B : Backend) (env : Env) (gcm : Aead) (g : Generators) (e : Encodings) where
  -- The pair is made before the kind of the key is looked at.
  unfoldable pub generate_data_key_pair : Option Text → KeySpec → Context → Api B DataKeyPair
  generate_data_key_pair key_id spec context = do
    id ← require key_id missing_parameter
    raise_if (is_unset spec) validation
    key ← get_usable_key B env id
    (public, private) ← lift (make_pair env g e (pair_kind spec))
    blob ← lift (wrap_data_key env gcm key private context)
    pure (record {
      key_id = get_arn key;
      key_pair_spec = spec;
      private_key_ciphertext_blob = blob;
      private_key_plaintext = private;
      public_key = public;
    })

  unfoldable pub generate_data_key_pair_without_plaintext :
      Option Text → KeySpec → Context → Api B DataKeyPair
  generate_data_key_pair_without_plaintext key_id spec context = do
    k ← generate_data_key_pair key_id spec context
    pure (record k { private_key_plaintext = [] })

unfoldable pub generate_random : {S : Type 0} → Env → Option ℤ → Exec S Exception Text
generate_random env number = do
  n ← require number validation
  raise_if (below n 1) validation
  raise_if (above n 1024) validation
  pure (env.random [] 5 (to_nat n))
