-- ===== src/Tests/Keys.antt =====
-- Saving and loading keys in memory.
use local_kms.Prelude.{◌≡◌, ◌≢◌, refl, Text, [], ◌∷◌, some, text_eq}
use local_kms.Result.{ok}
use local_kms.Clock.{unix, add_year}
use local_kms.Cmk.{AesKey, aes, is_pending_deletion}
use local_kms.Cmk.Aes.{rotate_if_needed}
use local_kms.Data.DiskSpace.{check_disk_space}
use local_kms.Data.Database.{put_object, validate_key_data, unmarshal_key}
use local_kms.Data.Keys.{save_key, read_key, load_key, rotate, migrate, settle, expire, is_expired}
use local_kms.Data.Keys.Saving.{read-save_key}
use local_kms.Data.Keys.Loaded.{Loaded}
use local_kms.Data.Keys.Fresh.{IsFresh, load_key-IsFresh}
use local_kms.Tests.Memory.{memory, Store, key, alias}
use local_kms.Tests.Samples.{env, key_arn, alias_arn, alias_a1, aes_key, store, replicate}

-- The key after its rotation in November 2023, which is due again a year later.
abbrev pub rotated_key : AesKey
rotated_key = record aes_key {
  backing_keys = replicate 32 7 ∷ replicate 32 0 ∷ [];
  next_key_rotation = some 1731622400000000000;
}

abbrev pub rotated_store : Store
rotated_store = (key_arn, key (aes rotated_key)) ∷ (alias_arn, alias alias_a1) ∷ []

saved : save_key memory env (aes rotated_key) store ≡ (ok tt, rotated_store)
unfolding save_key validate_key_data put_object check_disk_space unmarshal_key text_eq
saved = refl

read-save_key_example :
    (read_key memory key_arn rotated_store ≡ (ok (aes rotated_key), rotated_store))
    × ((j : Text) → key_arn ≢ j → memory.get rotated_store j ≡ memory.get store j)
read-save_key_example = read-save_key memory env (aes rotated_key) store rotated_store saved

pub loaded : load_key memory env key_arn store ≡ (ok (aes rotated_key), rotated_store)
unfolding load_key save_key validate_key_data put_object check_disk_space unmarshal_key text_eq
    read_key rotate rotate_if_needed migrate settle expire is_expired is_pending_deletion unix
    add_year
loaded = refl

load_key-IsFresh_example : IsFresh env (aes rotated_key)
load_key-IsFresh_example =
    load_key-IsFresh memory env key_arn store rotated_store (aes rotated_key) loaded
