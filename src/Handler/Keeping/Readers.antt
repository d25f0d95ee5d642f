-- ===== src/Handler/Keeping/Readers.antt =====
-- The handlers that write nothing of their own: the encryption, MAC and signing handlers, and those that
-- describe keys.
use local_kms.Prelude.{Text, Option, none, some, ℤ}
use local_kms.Config.{Env}
use local_kms.Result.{Result, ok, err, panic}
use local_kms.Cmk.{Key, EncryptionAlgorithm, SigningAlgorithm, KeySpec, aes}
use local_kms.Cmk.Context.{Context}
use local_kms.Cmk.Encryption.{Aead}
use local_kms.Cmk.Rsa.{Oaep}
use local_kms.Cmk.Hmac.{Hash}
use local_kms.Cmk.Signing.{Crypto}
use local_kms.Cmk.Generate.{Generators}
use local_kms.Data.Backend.{Backend}
use local_kms.Handler.Responses.{Exception, Api}
use local_kms.Handler.Consistency.{AllConsistent}
use local_kms.Handler.Crypto
use local_kms.Handler.Mac
use local_kms.Handler.Keys
use local_kms.Handler.Rotation
use local_kms.Handler.DataKeys
use local_kms.Handler.Signing
use local_kms.Handler.Signing.{Encodings, MessageType}
use local_kms.Handler.Keeping.Calls.{Keeps, handling}

module _ (B : Backend) (env : Env) where
  pub Keeps-describe_key : (id : Option Text) → Keeps B env (Keys.describe_key B env id)
  unfolding Keys.describe_key
  Keeps-describe_key id = search handling

  pub Keeps-get_key_policy : (id : Option Text) → Keeps B env (Keys.get_key_policy B env id)
  unfolding Keys.get_key_policy
  Keeps-get_key_policy id = search handling

  pub Keeps-get_key_rotation_status :
      (id : Option Text) → Keeps B env (Rotation.get_key_rotation_status B env id)
  unfolding Rotation.get_key_rotation_status
  Keeps-get_key_rotation_status id = search handling depth 12

  pub Keeps-generate_random : (n : Option ℤ) → Keeps B env (DataKeys.generate_random env n)
  unfolding DataKeys.generate_random
  Keeps-generate_random n = search handling depth 12

  module _ (gcm : Aead) where
    pub Keeps-generate_data_key :
        (id spec : Option Text) (n : Option ℤ) (c : Context)
        → Keeps B env (DataKeys.generate_data_key B env gcm id spec n c)
    unfolding DataKeys.generate_data_key
    Keeps-generate_data_key id spec n c = search handling depth 20

    pub Keeps-generate_data_key_without_plaintext :
        (id spec : Option Text) (n : Option ℤ) (c : Context)
        → Keeps B env (DataKeys.generate_data_key_without_plaintext B env gcm id spec n c)
    unfolding DataKeys.generate_data_key_without_plaintext
    Keeps-generate_data_key_without_plaintext id spec n c =
        search (handling, Keeps-generate_data_key)

    module _ (g : Generators) (e : Encodings) where
      pub Keeps-generate_data_key_pair :
          (id : Option Text) (spec : KeySpec) (c : Context)
          → Keeps B env (DataKeys.generate_data_key_pair B env gcm g e id spec c)
      unfolding DataKeys.generate_data_key_pair
      Keeps-generate_data_key_pair id spec c = search handling depth 20

      pub Keeps-generate_data_key_pair_without_plaintext :
          (id : Option Text) (spec : KeySpec) (c : Context)
          → Keeps B env (DataKeys.generate_data_key_pair_without_plaintext B env gcm g e id spec c)
      unfolding DataKeys.generate_data_key_pair_without_plaintext
      Keeps-generate_data_key_pair_without_plaintext id spec c =
          search (handling, Keeps-generate_data_key_pair)

    module _ (oaep : Oaep) where
      pub Keeps-encrypt :
          (id : Option Text) (p : Text) (c : Context) (a : EncryptionAlgorithm)
          → Keeps B env (Crypto.encrypt B env gcm oaep id p c a)
      unfolding Crypto.encrypt
      Keeps-encrypt id p c a = search handling depth 20

      Keeps-match_blob :
          (k : Key) (blob : Text) → Keeps B env (Crypto.match_blob B env gcm oaep k blob)
      unfolding Crypto.match_blob
      Keeps-match_blob (aes k) blob = search handling depth 20
      Keeps-match_blob _ blob = search handling

      kept-hidden :
          {A : Type 0} (r : Result Exception A) (d : B.Store)
          → AllConsistent B env d
          → AllConsistent B env (Crypto.hidden B env gcm oaep (λ s. (r, d)) d).1
      kept-hidden (ok a) d p = p
      kept-hidden (err x) d p = p
      kept-hidden panic d p = p

      Keeps-hidden :
          {A : Type 0} (m : Api B A) → Keeps B env m → Keeps B env (Crypto.hidden B env gcm oaep m)
      Keeps-hidden m h = record { after = λ s p. kept-hidden (m s).0 (m s).1 (h.after s p) }

      Keeps-locate :
          (id : Option Text) (blob : Text) → Keeps B env (Crypto.locate B env gcm oaep id blob)
      unfolding Crypto.locate
      Keeps-locate none blob = search (handling, Keeps-hidden) depth 20
      Keeps-locate (some id) blob = search (handling, Keeps-match_blob) depth 20

      pub Keeps-decrypt :
          (id : Option Text) (blob : Text) (c : Context) (a : EncryptionAlgorithm)
          → Keeps B env (Crypto.decrypt B env gcm oaep id blob c a)
      unfolding Crypto.decrypt
      Keeps-decrypt id blob c a = search (handling, Keeps-locate) depth 20

      pub Keeps-re_encrypt :
          (from to : Option Text) (blob : Text) (c d : Context) (a b : EncryptionAlgorithm)
          → Keeps B env (Crypto.re_encrypt B env gcm oaep from to blob c d a b)
      unfolding Crypto.re_encrypt
      Keeps-re_encrypt from to blob c d a b = search handling depth 30

  module _ (mac : Hash → Text → Text → Text) where
    Keeps-mac_key : (id : Text) (a : SigningAlgorithm) → Keeps B env (Mac.mac_key B env mac id a)
    Keeps-mac_key id a = search handling depth 20

    pub Keeps-generate_mac :
        (id m : Option Text) (a : Option SigningAlgorithm)
        → Keeps B env (Mac.generate_mac B env mac id m a)
    unfolding Mac.generate_mac
    Keeps-generate_mac id m a = search handling depth 30

    pub Keeps-verify_mac :
        (id m c : Option Text) (a : Option SigningAlgorithm)
        → Keeps B env (Mac.verify_mac B env mac id m c a)
    unfolding Mac.verify_mac
    Keeps-verify_mac id m c a = search handling depth 30

  module _ (cr : Crypto) where
    pub Keeps-sign :
        (id m : Option Text) (kind : MessageType) (a : Option SigningAlgorithm)
        → Keeps B env (Signing.sign B env cr id m kind a)
    unfolding Signing.sign
    Keeps-sign id m kind a = search handling depth 30

    pub Keeps-verify :
        (id s m : Option Text) (kind : MessageType) (a : Option SigningAlgorithm)
        → Keeps B env (Signing.verify B env cr id s m kind a)
    unfolding Signing.verify
    Keeps-verify id s m kind a = search handling depth 30

  pub Keeps-get_public_key :
      (e : Encodings) (id : Option Text) → Keeps B env (Signing.get_public_key B env e id)
  unfolding Signing.get_public_key
  Keeps-get_public_key e id = search handling depth 20
