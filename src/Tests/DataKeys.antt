-- ===== src/Tests/DataKeys.antt =====
-- Data keys, key pairs and moved texts, in memory.
use local_kms.Prelude.{◌≡◌, refl, Text, codes, text_eq, some, none, [], ◌∷◌, ◌++◌, arith}
use local_kms.Result.{ok}
use local_kms.Cmk.{KeySpec, EncryptionAlgorithm, aes}
use local_kms.Cmk.Encryption.{encrypt_and_package}
use local_kms.Cmk.Encryption
use local_kms.Cmk.Generate.{Generators}
use local_kms.Service.Ciphertext.{unpack_ciphertext_blob, cut, slice, uint32_le}
use local_kms.Service.Ciphertext.Packing.{packed}
use local_kms.Handler.Lookup.{get_usable_key}
use local_kms.Handler.Signing.{Encodings}
use local_kms.Handler.Crypto.{re_encrypt, decrypt, encrypt_under}
use local_kms.Handler.Crypto.Requests.{get_usable_key-get_usable_key}
use local_kms.Handler.Crypto.Moving.{Packs, Source, Later, decrypt-re_encrypt}
use local_kms.Handler.KeyPairs.{make_pair, pair_kind}
use local_kms.Handler.DataKeys.{DataKey, DataKeyPair, generate_data_key, generate_data_key_pair}
use local_kms.Handler.DataKeys.Roundtrip.{decrypt-generate_data_key_pair}
use local_kms.Handler.KeyPairs.Made.{NewPair}
use local_kms.Tests.Memory.{memory, toy_gcm, toy_oaep}
use local_kms.Tests.Samples.{env, key_arn, replicate, store}
use local_kms.Tests.Keys.{rotated_key, rotated_store}
use local_kms.Tests.Handlers.{usable}
use local_kms.Tests.Requests.{named, user, blob}

-- What the toy cipher makes of a text, under the newest backing key.
abbrev packed_text : Text → Text
packed_text p = packed key_arn (replicate 12 2 ++ (replicate 16 0 ++ p)) 1

abbrev data_key : DataKey
data_key = record {
  key_id = key_arn;
  plaintext = replicate 16 4;
  ciphertext_blob = packed_text (replicate 16 4);
}

generated :
    generate_data_key memory env toy_gcm
      (some (codes "k1"))
      (some (codes "AES_128"))
      none
      user
      store
    ≡ (ok data_key, rotated_store)
unfolding generate_data_key encrypt_and_package text_eq
generated = rw usable refl

abbrev pub toy_generators : Generators
toy_generators = record {
  generate_ecdsa = λ e c. some (codes "ec");
  generate_rsa = λ e n. some (codes "rsa");
}

abbrev pub toy_encodings : Encodings
toy_encodings = record {
  pkix_rsa = λ k. some (1 ∷ k);
  pkix_ecdsa = λ k. some (2 ∷ k);
  pkcs8_rsa = λ k. some (3 ∷ k);
  pkcs8_ecdsa = λ k. some (4 ∷ k);
}

abbrev data_pair : DataKeyPair
data_pair = record {
  key_id = key_arn;
  key_pair_spec = KeySpec.ecc_nist_p256;
  private_key_ciphertext_blob = packed_text (4 ∷ codes "ec");
  private_key_plaintext = 4 ∷ codes "ec";
  public_key = 2 ∷ codes "ec";
}

pair_generated :
    generate_data_key_pair memory env toy_gcm toy_generators toy_encodings
      (some (codes "k1"))
      KeySpec.ecc_nist_p256
      user
      store
    ≡ (ok data_pair, rotated_store)
unfolding generate_data_key_pair encrypt_and_package pair_kind make_pair
pair_generated = rw usable refl

decrypt-generate_data_key_pair_example :
    NewPair env toy_generators toy_encodings KeySpec.ecc_nist_p256 (2 ∷ codes "ec") (4 ∷ codes "ec")
    × (decrypt memory env toy_gcm toy_oaep
          (some (codes "k1"))
          data_pair.private_key_ciphertext_blob
          user
          EncryptionAlgorithm.unset
          rotated_store
        ≡ (ok (key_arn, 4 ∷ codes "ec"), rotated_store))
decrypt-generate_data_key_pair_example =
    decrypt-generate_data_key_pair memory env toy_gcm toy_oaep toy_generators toy_encodings user
      (codes "k1") KeySpec.ecc_nist_p256 store rotated_store (aes rotated_key) data_pair usable
      named (omega arith) (omega arith) refl refl refl pair_generated

usable_again :
    get_usable_key memory env (codes "k1") rotated_store ≡ (ok (aes rotated_key), rotated_store)
usable_again =
    get_usable_key-get_usable_key memory env (codes "k1") (aes rotated_key) store rotated_store
      named usable

made :
    encrypt_under memory env toy_gcm toy_oaep
      (aes rotated_key)
      (codes "secret")
      user
      EncryptionAlgorithm.symmetric_default
    ≡ ok blob
unfolding encrypt_under encrypt_and_package
made = refl

packs : Packs env (aes rotated_key)
packs = (omega arith, omega arith, refl)

moved :
    re_encrypt memory env toy_gcm toy_oaep
      (some (codes "k1"))
      (some (codes "k1"))
      blob
      user
      []
      EncryptionAlgorithm.unset
      EncryptionAlgorithm.unset
      store
    ≡ (ok (key_arn, key_arn, blob), rotated_store)
unfolding re_encrypt encrypt_and_package unpack_ciphertext_blob cut slice uint32_le
    Encryption.decrypt text_eq
moved = rw (usable, usable_again) refl

decrypt-re_encrypt_example :
    decrypt memory env toy_gcm toy_oaep
      (some (codes "k1"))
      blob
      []
      EncryptionAlgorithm.unset
      rotated_store
    ≡ (ok (key_arn, codes "secret"), rotated_store)
decrypt-re_encrypt_example =
    decrypt-re_encrypt memory toy_gcm toy_oaep env (codes "secret") user [] env (some (codes "k1"))
      (codes "k1") (codes "k1") blob EncryptionAlgorithm.unset EncryptionAlgorithm.unset store
      rotated_store rotated_store (aes rotated_key) (aes rotated_key) (aes rotated_key) key_arn
      key_arn blob Source.named Later.same made usable usable_again named (omega arith)
      (omega arith) refl packs refl refl moved
