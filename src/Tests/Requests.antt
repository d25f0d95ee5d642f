-- ===== src/Tests/Requests.antt =====
-- Requests to encrypt and decrypt, and loads one after another, in memory.
use local_kms.Prelude.{
  ◌≡◌, refl, false, Text, codes, contains, has_prefix, some, [], ◌∷◌, ◌++◌, arith,
}
use local_kms.Config.{ensure_arn, arn_prefix}
use local_kms.Result.{ok}
use local_kms.Cmk.{EncryptionAlgorithm, aes}
use local_kms.Cmk.Aes.{rotate_if_needed}
use local_kms.Cmk.Context.{Context}
use local_kms.Cmk.Encryption.{encrypt_and_package}
use local_kms.Service.Ciphertext.Packing.{packed}
use local_kms.Data.Keys.{load_key, rotate}
use local_kms.Data.Keys.Again.{load_key-load_key}
use local_kms.Handler.Crypto.{encrypt, decrypt, encrypt_under}
use local_kms.Handler.Crypto.Requests.{Names, decrypt-encrypt_request}
use local_kms.Tests.Memory.{memory, toy_gcm, toy_oaep}
use local_kms.Tests.Samples.{env, key_arn, store, replicate}
use local_kms.Tests.Keys.{rotated_key, rotated_store, loaded}
use local_kms.Tests.Handlers.{usable}

no_rotation : (rotate env (aes rotated_key)).1 ≡ false
unfolding rotate rotate_if_needed
no_rotation = refl

load_key-load_key_example :
    load_key memory env key_arn rotated_store ≡ (ok (aes rotated_key), rotated_store)
load_key-load_key_example =
    load_key-load_key memory env key_arn store rotated_store (aes rotated_key) loaded refl
      no_rotation

pub named : Names env (codes "k1") (aes rotated_key)
unfolding contains has_prefix ensure_arn arn_prefix rotate rotate_if_needed
named = (refl, refl, refl)

abbrev pub user : Context
user = (codes "user", codes "1") ∷ []

abbrev pub blob : Text
blob = packed key_arn (replicate 12 2 ++ (replicate 16 0 ++ codes "secret")) 1

encrypted :
    encrypt memory env toy_gcm toy_oaep
      (some (codes "k1"))
      (codes "secret")
      user
      EncryptionAlgorithm.unset
      store
    ≡ (ok (key_arn, blob), rotated_store)
unfolding encrypt encrypt_under encrypt_and_package
encrypted = rw usable refl

decrypt-encrypt_request_example :
    decrypt memory env toy_gcm toy_oaep
      (some (codes "k1"))
      blob
      user
      EncryptionAlgorithm.unset
      rotated_store
    ≡ (ok (key_arn, codes "secret"), rotated_store)
decrypt-encrypt_request_example =
    decrypt-encrypt_request memory toy_gcm toy_oaep env (codes "secret") user (codes "k1")
      EncryptionAlgorithm.unset store rotated_store (aes rotated_key) key_arn blob usable named
      (omega arith) (omega arith) refl refl refl encrypted
