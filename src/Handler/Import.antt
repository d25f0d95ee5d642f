-- ===== src/Handler/Import.antt =====
-- handler/get_parameters_for_import.go, import_key_material.go and delete_imported_key_material.go.
pub mod Invariant
use local_kms.Prelude.{
  ℕ, ◌+◌, ◌*◌, not, Bool, true, false, ltb, above, to_nat, ℤ, Text, text_eq, codes, Option, none,
  some,
}
use local_kms.Config.{Env}
use local_kms.Clock.{second, unix, day}
use local_kms.Result.{Result, ok, err, panic}
use local_kms.Exec.{pure, lift, raise_if, ◌>>=◌, ◌>>◌}
use local_kms.Cmk.{
  Key, KeyMetadata, KeyState, ExpirationModel, expires, does_not_expire, ParametersForImport,
  WrappingAlgorithm, aes, hmac, get_metadata, set_metadata, get_arn, is_external,
}
use local_kms.Cmk.Aes
use local_kms.Cmk.Hmac
use local_kms.Cmk.Errors.{CmkError}
use local_kms.Data.Backend.{Backend}
use local_kms.Data.Keys.{save_key}
use local_kms.Handler.Responses.{
  Exception, Api, expect, require, missing_parameter, validation, unsupported_operation,
  kms_invalid_state, invalid_import_token, expired_import_token, invalid_ciphertext,
  incorrect_key_material, internal_failure,
}
use local_kms.Handler.Lookup.{get_key, is_pending_deletion_state, is_unavailable}

-- The RSA operations of Go's package crypto/rsa that wrap key material: making a key, and decrypting
-- with a wrapping algorithm, which fails on a text that was not encrypted for the key.
pub record Wrapping : Type 0 where
  pub generate : Env → Option Text
  pub public_key : Text → Option Text
  pub unwrap : Text → WrappingAlgorithm → Text → Option Text

-- `key.(cmk.ImportableKey)`, and its parameters
abbrev pub parameters_of : Key → Option ParametersForImport
parameters_of (aes k) = some k.parameters_for_import
parameters_of (hmac k) = some k.parameters_for_import
parameters_of _ = none

abbrev pub set_parameters : Key → ParametersForImport → Key
set_parameters (aes k) p = aes (record k { parameters_for_import = p })
set_parameters (hmac k) p = hmac (record k { parameters_for_import = p })
set_parameters k p = k

abbrev pub or_incorrect : {A : Type 0} → (A → Key) → Result CmkError A → Result Exception Key
or_incorrect f (ok a) = ok (f a)
or_incorrect f (err e) = err incorrect_key_material
or_incorrect f panic = panic

unfoldable pub import_material : Key → Text → Result Exception Key
import_material (aes k) m = or_incorrect aes (Aes.import_key_material k m)
import_material (hmac k) m = or_incorrect hmac (Hmac.import_key_material k m)
import_material k m = err unsupported_operation

abbrev pub supported : WrappingAlgorithm → Bool
supported WrappingAlgorithm.pkcs1_v1_5 = true
supported WrappingAlgorithm.oaep_sha_1 = true
supported WrappingAlgorithm.oaep_sha_256 = true
supported _ = false

abbrev pub is_unset : WrappingAlgorithm → Bool
is_unset WrappingAlgorithm.unset = true
is_unset _ = false

-- Without an expiration model the presence of a date decides.
unfoldable pub expiration_model :
    Option ExpirationModel → Option ℤ → Result Exception ExpirationModel
expiration_model none (some t) = ok expires
expiration_model none none = ok does_not_expire
expiration_model (some expires) valid_to = ok expires
expiration_model (some does_not_expire) valid_to = ok does_not_expire
expiration_model (some _) valid_to = err validation

abbrev pub mismatched : ExpirationModel → Option ℤ → Bool
mismatched expires none = true
mismatched does_not_expire (some t) = true
mismatched _ _ = false

-- The date is not in the future.
abbrev pub passed : Env → Option ℤ → Bool
passed env none = false
passed env (some t) = not (above t (unix env.now))

abbrev valid_until : ExpirationModel → Option ℤ → ℕ
valid_until expires (some t) = to_nat t * second
valid_until _ _ = 0

unfoldable pub imported : ExpirationModel → Option ℤ → KeyMetadata → KeyMetadata
imported model valid_to m = record m {
  expiration_model = model;
  key_state = KeyState.enabled;
  enabled = true;
  valid_to = valid_until model valid_to;
}

unfoldable pub unimported : KeyMetadata → KeyMetadata
unimported m = record m {
  key_state = KeyState.pending_import;
  enabled = false;
  valid_to = 0;
  expiration_model = ExpirationModel.unset;
}

module _ (B : Backend) (env : Env) where
  -- The checks that the three handlers have in common.
  abbrev pub external_key : Text → Api B Key
  external_key id = do
    key ← get_key B env id
    raise_if (not (is_external (get_metadata key).origin)) unsupported_operation
    raise_if (is_pending_deletion_state (get_metadata key).key_state) kms_invalid_state
    raise_if (is_unavailable (get_metadata key).key_state) kms_invalid_state
    pure key

  module _ (w : Wrapping) where
    unfoldable pub get_parameters_for_import : Option Text → WrappingAlgorithm → Text → Api B Key
    get_parameters_for_import key_id wrapping_algorithm wrapping_key_spec = do
      id ← require key_id missing_parameter
      raise_if (is_unset wrapping_algorithm) missing_parameter
      raise_if (not (supported wrapping_algorithm)) validation
      raise_if (text_eq wrapping_key_spec (codes "")) missing_parameter
      raise_if (not (text_eq wrapping_key_spec (codes "RSA_2048"))) validation
      key ← external_key id
      private_key ← require (w.generate env) internal_failure
      public_key ← require (w.public_key private_key) internal_failure
      old ← require (parameters_of key) unsupported_operation
      let key' = set_parameters key (record {
        parameters_valid_to = unix (env.now + day);
        import_token = env.random (get_arn key) 3 256;
        private_key = private_key;
        wrapping_algorithm = wrapping_algorithm;
      })
      expect internal_failure (save_key B env key')
      pure key'

    unfoldable pub import_key_material :
        Option Text → Option Text → Option Text → Option ExpirationModel → Option ℤ → Api B Key
    import_key_material key_id import_token encrypted_key_material model valid_to = do
      id ← require key_id missing_parameter
      token ← require import_token missing_parameter
      encrypted ← require encrypted_key_material missing_parameter
      expiration ← lift (expiration_model model valid_to)
      raise_if (mismatched expiration valid_to) validation
      raise_if (passed env valid_to) validation
      key ← external_key id
      params ← require (parameters_of key) unsupported_operation
      raise_if (not (text_eq params.import_token token)) invalid_import_token
      raise_if (ltb params.parameters_valid_to (unix env.now)) expired_import_token
      material ←
          require (w.unwrap params.private_key params.wrapping_algorithm encrypted)
            invalid_ciphertext
      key' ← lift (import_material key material)
      let key'' = set_metadata key' (imported expiration valid_to (get_metadata key'))
      expect internal_failure (save_key B env key'')
      pure key''

  -- The material stays, since only the same material may be imported again.
  unfoldable pub delete_imported_key_material : Option Text → Api B Key
  delete_imported_key_material key_id = do
    id ← require key_id missing_parameter
    key ← external_key id
    let key' = set_metadata key (unimported (get_metadata key))
    expect internal_failure (save_key B env key')
    pure key'
