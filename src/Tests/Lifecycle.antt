-- ===== src/Tests/Lifecycle.antt =====
-- Requests that change the state of a key, and what becomes of it, in memory.
use local_kms.Prelude.{
  ◌≡◌, refl, false, codes, has_prefix, text_eq, some, none, pos, [], ◌∷◌, arith,
}
use local_kms.Config.{Env, ensure_arn, arn_prefix}
use local_kms.Clock.{unix, add_days, add_year}
use local_kms.Result.{ok, err}
use local_kms.Cmk.{KeyState, AesKey, aes, is_pending_deletion}
use local_kms.Cmk.Aes.{rotate_if_needed}
use local_kms.Data.{not_found}
use local_kms.Data.Database.{put_object, validate_key_data, unmarshal_key}
use local_kms.Data.DiskSpace.{check_disk_space}
use local_kms.Data.Keys.{save_key, load_key, read_key, rotate, migrate, settle, expire, is_expired}
use local_kms.Handler.Lookup.{find_key}
use local_kms.Handler.KeyState.{schedule_key_deletion, schedule}
use local_kms.Handler.KeyState.Refinement.{Event, next, Follows, request, request-Follows}
use local_kms.Handler.KeyState.Deletion.{load_key-schedule_key_deletion}
use local_kms.Tests.Memory.{memory, Store, key, alias}
use local_kms.Tests.Samples.{env, key_arn, alias_arn, alias_a1, metadata, store}
use local_kms.Tests.Keys.{rotated_key, rotated_store}

found : find_key memory env (codes "k1") store ≡ (ok (aes rotated_key), rotated_store)
unfolding find_key ensure_arn arn_prefix has_prefix load_key save_key validate_key_data put_object
    check_disk_space unmarshal_key text_eq read_key rotate rotate_if_needed migrate settle expire
    is_expired is_pending_deletion unix add_year
found = refl

request-Follows_example :
    Follows memory env
      (next Event.cancelling KeyState.enabled)
      (aes rotated_key)
      rotated_store
      (request memory env Event.cancelling (codes "k1") store)
request-Follows_example =
    request-Follows memory env Event.cancelling (codes "k1") store rotated_store (aes rotated_key)
      tt found

-- The key, to be deleted seven days after November 2023's time.
abbrev doomed_key : AesKey
doomed_key = record rotated_key {
  metadata = record metadata {
    enabled = false;
    key_state = KeyState.pending_deletion;
    deletion_date = 1700604800000000000;
  };
}

abbrev doomed_store : Store
doomed_store = (key_arn, key (aes doomed_key)) ∷ (alias_arn, alias alias_a1) ∷ []

scheduled :
    schedule_key_deletion memory env (some (codes "k1")) (some (pos 7)) store
    ≡ (ok (aes doomed_key), doomed_store)
unfolding schedule_key_deletion schedule add_days save_key validate_key_data put_object
    check_disk_space unmarshal_key text_eq
scheduled = rw found refl

-- Two weeks later.
abbrev later : Env
later = record env { now = 1701209600000000000 }

load_key-schedule_key_deletion_example :
    (load_key memory later key_arn doomed_store ≡ (err not_found, (alias_arn, alias alias_a1) ∷ []))
    × (memory.get ((alias_arn, alias alias_a1) ∷ []) key_arn ≡ none)
unfolding add_days unix check_disk_space text_eq rotate rotate_if_needed
load_key-schedule_key_deletion_example =
    load_key-schedule_key_deletion memory env later (codes "k1") (some (pos 7)) store doomed_store
      (aes doomed_key) scheduled (omega arith) ((alias_arn, alias alias_a1) ∷ []) refl refl refl
