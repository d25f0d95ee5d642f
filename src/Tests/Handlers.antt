-- ===== src/Tests/Handlers.antt =====
-- Requests in memory.
use local_kms.Prelude.{
  ◌≡◌, refl, Text, codes, [], ◌∷◌, some, text_eq, contains, has_prefix, arith, Bool-cases, inl, inr,
}
use mathlib.Core.Path.{subst}
use local_kms.Result.{ok}
use local_kms.Config.{arn_prefix, ensure_arn}
use local_kms.Clock.{unix, add_year}
use local_kms.Cmk.{Key, aes, get_metadata, is_pending_deletion}
use local_kms.Cmk.Aes.{rotate_if_needed}
use local_kms.Cmk.Context.{Context}
use local_kms.Data.DiskSpace.{check_disk_space}
use local_kms.Data.Database.{put_object, validate_key_data, unmarshal_key}
use local_kms.Data.Keys.{save_key, read_key, load_key, rotate, migrate, settle, expire, is_expired}
use local_kms.Data.Keys.Sound.{IsSound}
use local_kms.Data.Keys.Stored.{stored}
use local_kms.Handler.Lookup.{find_key, get_key, get_usable_key}
use local_kms.Handler.Consistency.{IsConsistent}
use local_kms.Handler.Keeping.Storage.{Apart}
use local_kms.Handler.Crypto.Replies.{IsUsable, get_usable_key-IsUsable}
use local_kms.Tests.Memory.{memory}
use local_kms.Tests.Samples.{env, key_arn, aes_key, metadata, store}
use local_kms.Tests.Keys.{rotated_key, rotated_store}

metadata-IsConsistent : IsConsistent metadata
metadata-IsConsistent = record {
  on = λ e. refl;
  off = λ e. refl;
  dated = λ e. absurd (ground arith);
}

only_key : (arn : Text) (k : Key) → stored memory store arn ≡ some k → aes aes_key ≡ k
unfolding stored unmarshal_key
only_key arn k e = elim (Bool-cases (text_eq key_arn arn)) [
  | inl same ↦ ground arith
  | inr other ↦ absurd (ground arith)
]

pub memory-Apart : Apart memory
unfolding unmarshal_key
memory-Apart = record {
  aliases = λ a k h. absurd (ground arith);
  tags = λ t k h. absurd (ground arith);
  grants = λ g k h. absurd (ground arith);
}

pub store-AllConsistent : IsSound memory IsConsistent store
store-AllConsistent = record {
  at_name = λ arn k e.
      subst (λ k. IsConsistent (get_metadata k)) (only_key arn k e) metadata-IsConsistent;
}

pub usable : get_usable_key memory env (codes "k1") store ≡ (ok (aes rotated_key), rotated_store)
unfolding get_usable_key get_key find_key ensure_arn arn_prefix contains has_prefix load_key
    save_key validate_key_data put_object check_disk_space unmarshal_key text_eq read_key rotate
    rotate_if_needed migrate settle expire is_expired is_pending_deletion unix add_year
usable = refl

get_usable_key-IsUsable_example :
    (get_key memory env (codes "k1") store ≡ (ok (aes rotated_key), rotated_store))
    × IsUsable metadata
get_usable_key-IsUsable_example =
    get_usable_key-IsUsable memory env (codes "k1") store rotated_store (aes rotated_key) usable

abbrev user : Context
user = (codes "user", codes "1") ∷ []
