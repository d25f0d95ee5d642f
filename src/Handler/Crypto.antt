-- ===== src/Handler/Crypto.antt =====
-- handler/encrypt.go, decrypt.go and re_encrypt.go.
pub mod Replies
pub mod Requests
pub mod Moving
use local_kms.Prelude.{
  ℕ, suc, ◌-◌, not, ◌&&◌, ◌||◌, Bool, true, false, ltb, below, above, to_nat, ℤ, pos, Text, text_eq,
  codes, is_empty, length, Option, none, some, List, [], ◌∷◌, if◌then◌else◌,
}
use local_kms.Config.{Env}
use local_kms.Result.{Result, ok, err, panic}
use local_kms.Exec.{Exec, pure, raise, lift, raise_if, ◌>>=◌, ◌>>◌}
use local_kms.Service.Safeconv.{to_unsigned}
use local_kms.Service.Ciphertext.{Blob, Refused, unpack_ciphertext_blob}
use local_kms.Cmk.{
  Key, AesKey, KeySpec, KeyUsage, EncryptionAlgorithm, aes, rsa, ecc, hmac, get_metadata, get_arn,
  rsa_2048, rsa_3072, rsa_4096, oaep_sha_1, oaep_sha_256,
}
use local_kms.Cmk.Errors.{CmkError}
use local_kms.Cmk.Context.{Context}
use local_kms.Cmk.Encryption
use local_kms.Cmk.Encryption.{Aead, encrypt_and_package}
use local_kms.Cmk.Rsa
use local_kms.Cmk.Rsa.{Oaep}
use local_kms.Data.Backend.{Backend}
use local_kms.Handler.Responses.{
  Exception, Api, require, missing_parameter, validation, invalid_key_usage, invalid_ciphertext,
  access_denied, internal_failure,
}
use local_kms.Handler.Lookup.{get_usable_key}

-- The longest text that OAEP takes, or -1, for which `none` stands.
unfoldable pub rsa_max_plaintext_bytes : KeySpec → EncryptionAlgorithm → Option ℕ
rsa_max_plaintext_bytes rsa_2048 oaep_sha_1 = some 214
rsa_max_plaintext_bytes rsa_2048 oaep_sha_256 = some 190
rsa_max_plaintext_bytes rsa_3072 oaep_sha_1 = some 342
rsa_max_plaintext_bytes rsa_3072 oaep_sha_256 = some 318
rsa_max_plaintext_bytes rsa_4096 oaep_sha_1 = some 470
rsa_max_plaintext_bytes rsa_4096 oaep_sha_256 = some 446
rsa_max_plaintext_bytes _ _ = none

abbrev pub too_long : Option ℕ → Text → Bool
too_long none p = false
too_long (some n) p = ltb n (length p)

abbrev pub is_encrypt_decrypt : KeyUsage → Bool
is_encrypt_decrypt KeyUsage.encrypt_decrypt = true
is_encrypt_decrypt _ = false

abbrev pub is_sign_verify : KeyUsage → Bool
is_sign_verify KeyUsage.sign_verify = true
is_sign_verify _ = false

-- An algorithm that is not given is SYMMETRIC_DEFAULT.
abbrev pub algorithm_or_default : EncryptionAlgorithm → EncryptionAlgorithm
algorithm_or_default EncryptionAlgorithm.unset = EncryptionAlgorithm.symmetric_default
algorithm_or_default a = a

-- Any error of the key's method becomes the given exception.
abbrev pub or_exception : {A : Type 0} → Exception → Result CmkError A → Result Exception A
or_exception x (ok a) = ok a
or_exception x (err e) = err x
or_exception x panic = panic

abbrev or_invalid : Result Refused Blob → Result Exception Blob
or_invalid (ok b) = ok b
or_invalid (err e) = err invalid_ciphertext
or_invalid panic = panic

-- The results of an unpacking whose `ok` is not looked at.
abbrev pub or_zero : Result Refused Blob → Result Exception Blob
or_zero (ok b) = ok b
or_zero (err e) = ok (record { ident = []; version = 0; ciphertext = [] })
or_zero panic = panic

module _ (B : Backend) (env : Env) (gcm : Aead) (oaep : Oaep) where
  -- The switch on the kind of the key in Encrypt.
  unfoldable pub encrypt_under : Key → Text → Context → EncryptionAlgorithm → Result Exception Text
  encrypt_under (aes k) p c a = or_exception internal_failure (encrypt_and_package gcm env k p c)
  encrypt_under (rsa k) p c a =
      if not (is_encrypt_decrypt k.metadata.key_usage)
      then err invalid_key_usage
      else if too_long (rsa_max_plaintext_bytes k.metadata.key_spec a) p
      then err invalid_key_usage
      else or_exception internal_failure (Rsa.encrypt oaep k p a)
  encrypt_under k p c a =
      if is_sign_verify (get_metadata k).key_usage
      then err invalid_key_usage
      else err internal_failure

  unfoldable pub encrypt : Option Text → Text → Context → EncryptionAlgorithm → Api B (Text × Text)
  encrypt key_id plaintext context algorithm = do
    id ← require key_id missing_parameter
    raise_if (is_empty plaintext) validation
    raise_if (ltb 4096 (length plaintext)) validation
    key ← get_usable_key B env id
    blob ← lift (encrypt_under key plaintext context (algorithm_or_default algorithm))
    pure (get_arn key, blob)

  -- The switch on the kind of the key in Decrypt.
  unfoldable pub decrypt_under :
      Key → ℕ → Text → Context → EncryptionAlgorithm → Result Exception Text
  decrypt_under (aes k) v ciphertext c a =
      or_exception invalid_ciphertext (Encryption.decrypt gcm k v ciphertext c)
  decrypt_under (rsa k) v ciphertext c a =
      if not (is_encrypt_decrypt k.metadata.key_usage)
      then err invalid_key_usage
      else or_exception invalid_ciphertext (Rsa.decrypt oaep k ciphertext a)
  decrypt_under k v ciphertext c a = err internal_failure

  -- Any exception of the lookup is replaced, so that nothing of the key is told.
  abbrev pub hidden : {A : Type 0} → Api B A → Api B A
  hidden m d = elim (m d).0 [
    | ok a ↦ (ok a, (m d).1)
    | err e ↦ (err access_denied, (m d).1)
    | panic ↦ (panic, (m d).1)
  ]

  -- A blob of an AES key must name the key that the request names.
  unfoldable pub match_blob : Key → Text → Api B (Key × ℕ × Text)
  match_blob (aes k) blob = do
    b ← lift (or_invalid (unpack_ciphertext_blob blob))
    raise_if (not (text_eq k.metadata.arn b.ident)) access_denied
    pure (aes k, b.version, b.ciphertext)
  match_blob k blob = pure (k, 0, blob)

  -- The key, version and text of a blob, where a key was named or not.
  unfoldable pub locate : Option Text → Text → Api B (Key × ℕ × Text)
  locate none blob = do
    b ← lift (or_invalid (unpack_ciphertext_blob blob))
    key ← hidden (get_usable_key B env b.ident)
    pure (key, b.version, b.ciphertext)
  locate (some id) blob = do key ← get_usable_key B env id; match_blob key blob

  unfoldable pub decrypt : Option Text → Text → Context → EncryptionAlgorithm → Api B (Text × Text)
  unfolding locate
  decrypt key_id blob context algorithm = do
    raise_if (is_empty blob) validation
    raise_if (ltb 6144 (length blob)) validation
    (key, version, ciphertext) ← locate key_id blob
    p ← lift (decrypt_under key version ciphertext context (algorithm_or_default algorithm))
    pure (get_arn key, p)

  abbrev pub source_name : Option Text → Text → Text
  source_name none ident = ident
  source_name (some id) ident = id

  -- The switches of ReEncrypt, which has looked at the usage of the keys before.
  abbrev pub decrypt_source :
      Key → Blob → Text → Context → EncryptionAlgorithm → Result Exception Text
  decrypt_source (aes k) b blob c a =
      or_exception invalid_ciphertext (Encryption.decrypt gcm k b.version b.ciphertext c)
  decrypt_source (rsa k) b blob c a = or_exception invalid_ciphertext (Rsa.decrypt oaep k blob a)
  decrypt_source k b blob c a = err internal_failure

  abbrev pub encrypt_destination :
      Key → Text → Context → EncryptionAlgorithm → Result Exception Text
  encrypt_destination (aes k) p c a =
      or_exception internal_failure (encrypt_and_package gcm env k p c)
  encrypt_destination (rsa k) p c a = or_exception internal_failure (Rsa.encrypt oaep k p a)
  encrypt_destination k p c a = err internal_failure

  -- A source key that is named need not be the key that the blob names.
  unfoldable pub re_encrypt :
      Option Text
      → Option Text
      → Text
      → Context
      → Context
      → EncryptionAlgorithm
      → EncryptionAlgorithm
      → Api B (Text × Text × Text)
  re_encrypt source_key_id destination_key_id blob source destination from_algorithm to_algorithm =
      do
        to ← require destination_key_id missing_parameter
        raise_if (is_empty blob) missing_parameter
        raise_if (ltb 6144 (length blob)) validation
        b ← lift (or_zero (unpack_ciphertext_blob blob))
        key ← get_usable_key B env (source_name source_key_id b.ident)
        raise_if (not (is_encrypt_decrypt (get_metadata key).key_usage)) invalid_key_usage
        p ← lift (decrypt_source key b blob source (algorithm_or_default from_algorithm))
        key' ← get_usable_key B env to
        raise_if (not (is_encrypt_decrypt (get_metadata key').key_usage)) invalid_key_usage
        blob' ← lift (encrypt_destination key' p destination (algorithm_or_default to_algorithm))
        pure (get_arn key', get_arn key, blob')
