-- ===== src/Tests/Stranded.antt =====
-- A key without material in memory, which is scheduled for deletion, kept and enabled.
use local_kms.Prelude.{
  ◌≡◌, refl, false, codes, contains, has_prefix, text_eq, none, some, pos, [], ◌∷◌,
}
use local_kms.Config.{ensure_arn, arn_prefix}
use local_kms.Result.{ok, panic}
use local_kms.Cmk.{Key, EncryptionAlgorithm, aes}
use local_kms.Data.Database.{unmarshal_key}
use local_kms.Data.DiskSpace.{check_disk_space}
use local_kms.Data.Keys.{read_key}
use local_kms.Handler.Crypto.{encrypt}
use local_kms.Handler.KeyState.{enable_key, schedule_key_deletion, cancel_key_deletion}
use local_kms.Handler.KeyState.Stranded.{IsEmpty, encrypt-enable_key}
use local_kms.Tests.Memory.{memory, Store, key, toy_gcm, toy_oaep}
use local_kms.Tests.Samples.{env, key_arn, empty_key}

abbrev empty_store : Store
empty_store = (key_arn, key (aes empty_key)) ∷ []

empty_key-IsEmpty : IsEmpty key_arn empty_key
empty_key-IsEmpty = record {
  own = refl;
  external = refl;
  spec = refl;
  no_material = refl;
  no_rotation = refl;
  no_last_second = refl;
}

plain : contains (codes "alias/") (codes "k1") ≡ false
unfolding contains has_prefix
plain = refl

own_name : ensure_arn env (codes "key/") (codes "k1") ≡ key_arn
unfolding ensure_arn arn_prefix has_prefix
own_name = refl

room : check_disk_space env ≡ none
unfolding check_disk_space
room = refl

there : read_key memory key_arn empty_store ≡ (ok (aes empty_key), empty_store)
unfolding read_key unmarshal_key text_eq
there = refl

encrypt-enable_key_example :
    (k₁ : Key) × (d₁ : Store) × (k₂ : Key) × (d₂ : Store) × (k₃ : Key) × (d₃ : Store)
    × (schedule_key_deletion memory env (some (codes "k1")) (some (pos 7)) empty_store
        ≡ (ok k₁, d₁))
    × (cancel_key_deletion memory env (some (codes "k1")) d₁ ≡ (ok k₂, d₂))
    × (enable_key memory env (some (codes "k1")) d₂ ≡ (ok k₃, d₃))
    × (encrypt memory env toy_gcm toy_oaep
          (some (codes "k1"))
          (codes "secret")
          []
          EncryptionAlgorithm.symmetric_default
          d₃
        ≡ (panic, d₃))
encrypt-enable_key_example =
    encrypt-enable_key memory env key_arn (codes "k1") plain own_name room (λ d name v. (_, refl))
      toy_gcm toy_oaep (codes "secret") [] EncryptionAlgorithm.symmetric_default refl refl
      (some (pos 7)) empty_key empty_store refl empty_key-IsEmpty refl refl there
