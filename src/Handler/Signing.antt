-- ===== src/Handler/Signing.antt =====
-- handler/sign.go, verify.go and get_public_key.go.
pub mod Requests
use local_kms.Prelude.{
  not, ◌&&◌, ltb, Bool, true, false, Text, is_empty, length, Option, none, some, List,
  if◌then◌else◌,
}
use local_kms.Config.{Env}
use local_kms.Result.{Result, ok, err, panic}
use local_kms.Exec.{pure, raise_if, lift, ◌>>=◌, ◌>>◌}
use local_kms.Cmk.{
  Key, KeyUsage, KeySpec, EncryptionAlgorithm, SigningAlgorithm, aes, rsa, ecc, hmac, get_metadata,
  get_arn,
}
use local_kms.Cmk.Errors.{CmkError, invalid_signing_algorithm, invalid_digest_length}
use local_kms.Cmk.Signing.{
  Crypto, ecc_sign, ecc_hash_and_sign, ecc_verify, ecc_hash_and_verify, rsa_sign, rsa_hash_and_sign,
  rsa_verify, rsa_hash_and_verify,
}
use local_kms.Data.Backend.{Backend}
use local_kms.Handler.Responses.{
  Exception, Api, require, validation, invalid_key_usage, invalid_signature, internal_failure,
}
use local_kms.Handler.Lookup.{get_usable_key}
use local_kms.Handler.Crypto.{is_encrypt_decrypt}

-- The type of a message, where an empty one is RAW.
pub data MessageType : Type 0 where
  unset raw digest : MessageType
  other : Text → MessageType

abbrev pub is_digest : MessageType → Bool
is_digest MessageType.digest = true
is_digest _ = false

abbrev pub is_other : MessageType → Bool
is_other (MessageType.other t) = true
is_other _ = false

-- How Sign answers an error of the key's method, and how Verify does.
abbrev pub sign_error : {A : Type 0} → Result CmkError A → Result Exception A
sign_error (ok a) = ok a
sign_error (err invalid_digest_length) = err validation
sign_error (err e) = err invalid_key_usage
sign_error panic = panic

abbrev pub verify_error : {A : Type 0} → Result CmkError A → Result Exception A
verify_error (ok a) = ok a
verify_error (err e) = err invalid_key_usage
verify_error panic = panic

-- The public key of an asymmetric key, with what the metadata say of it.
pub record PublicKey : Type 0 where
  pub key_id : Text
  pub customer_master_key_spec : KeySpec
  pub key_spec : KeySpec
  pub encryption_algorithms : List EncryptionAlgorithm
  pub signing_algorithms : List SigningAlgorithm
  pub key_usage : KeyUsage
  pub public_key : Text

-- MarshalPKIXPublicKey and MarshalPKCS8PrivateKey of src/x509/, which are copies of Go's own, with the
-- bytes of a private key.
pub record Encodings : Type 0 where
  pub pkix_rsa : Text → Option Text
  pub pkix_ecdsa : Text → Option Text
  pub pkcs8_rsa : Text → Option Text
  pub pkcs8_ecdsa : Text → Option Text

abbrev pub or_internal : Option Text → Result Exception Text
or_internal none = err internal_failure
or_internal (some t) = ok t

-- The bytes that GetPublicKey returns.
unfoldable pub public_bytes : Encodings → Key → Result Exception Text
public_bytes e (rsa k) = or_internal (e.pkix_rsa k.private_key)
public_bytes e (ecc k) = or_internal (e.pkix_ecdsa k.private_key)
public_bytes e _ = err invalid_key_usage

module _ (B : Backend) (env : Env) (C : Crypto) where
  -- The switch on the kind of the key in Sign, and the call of the key's method.
  unfoldable pub sign_under : Key → MessageType → Text → SigningAlgorithm → Result Exception Text
  sign_under (rsa k) kind m a =
      if is_encrypt_decrypt k.metadata.key_usage
      then err invalid_key_usage
      else sign_error
          (if is_digest kind then rsa_sign C env k m a else rsa_hash_and_sign C env k m a)
  sign_under (ecc k) kind m a =
      if is_encrypt_decrypt k.metadata.key_usage
      then err invalid_key_usage
      else sign_error
          (if is_digest kind then ecc_sign C env k m a else ecc_hash_and_sign C env k m a)
  sign_under _ kind m a = err invalid_key_usage

  unfoldable pub verify_under :
      Key → MessageType → Text → Text → SigningAlgorithm → Result Exception Bool
  verify_under (rsa k) kind s m a =
      if is_encrypt_decrypt k.metadata.key_usage
      then err invalid_key_usage
      else verify_error
          (if is_digest kind then rsa_verify C k s m a else rsa_hash_and_verify C k s m a)
  verify_under (ecc k) kind s m a =
      if is_encrypt_decrypt k.metadata.key_usage
      then err invalid_key_usage
      else verify_error
          (if is_digest kind then ecc_verify C k s m a else ecc_hash_and_verify C k s m a)
  verify_under _ kind s m a = err invalid_key_usage

  -- The reply names the key and has the signature. The algorithm is `none` where it is empty.
  unfoldable pub sign :
      Option Text → Option Text → MessageType → Option SigningAlgorithm → Api B (Text × Text)
  sign key_id message message_type algorithm = do
    id ← require key_id validation
    m ← require message validation
    raise_if (is_empty m) validation
    raise_if (ltb 4096 (length m)) validation
    a ← require algorithm validation
    raise_if (is_other message_type) validation
    key ← get_usable_key B env id
    s ← lift (sign_under key message_type m a)
    pure (get_arn key, s)

  -- A signature that does not verify is an exception.
  unfoldable pub verify :
      Option Text
      → Option Text
      → Option Text
      → MessageType
      → Option SigningAlgorithm
      → Api B (Text × Bool)
  verify key_id signature message message_type algorithm = do
    id ← require key_id validation
    s ← require signature validation
    m ← require message validation
    raise_if (is_empty m) validation
    raise_if (ltb 4096 (length m)) validation
    a ← require algorithm validation
    raise_if (is_other message_type) validation
    key ← get_usable_key B env id
    valid ← lift (verify_under key message_type s m a)
    raise_if (not valid) invalid_signature
    pure (get_arn key, valid)

module _ (B : Backend) (env : Env) (e : Encodings) where
  unfoldable pub get_public_key : Option Text → Api B PublicKey
  get_public_key key_id = do
    id ← require key_id validation
    key ← get_usable_key B env id
    bytes ← lift (public_bytes e key)
    let m = get_metadata key
    pure (record {
      key_id = get_arn key;
      customer_master_key_spec = m.customer_master_key_spec;
      key_spec = m.key_spec;
      encryption_algorithms = m.encryption_algorithms;
      signing_algorithms = m.signing_algorithms;
      key_usage = m.key_usage;
      public_key = bytes;
    })
