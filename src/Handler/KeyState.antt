-- ===== src/Handler/KeyState.antt =====
-- The handlers that move a key through its states: handler/enable_key.go, disable_key.go,
-- schedule_key_deletion.go and cancel_key_deletion.go.
pub mod Invariant
pub mod Refinement
pub mod Deletion
pub mod Stranded
use local_kms.Prelude.{
  ℕ, not, ◌||◌, Bool, true, false, Text, Option, none, some, ℤ, pos, below, above, to_nat,
}
use local_kms.Config.{Env}
use local_kms.Clock.{add_days}
use local_kms.Exec.{Exec, pure, raise_if, ◌>>=◌, ◌>>◌}
use local_kms.Cmk.{Key, KeyMetadata, KeyState, get_metadata, set_metadata}
use local_kms.Data.Backend.{Backend}
use local_kms.Data.Keys.{save_key}
use local_kms.Handler.Responses.{
  Api, expect, require, missing_parameter, validation, kms_invalid_state, internal_failure,
}
use local_kms.Handler.Lookup.{find_key, get_key, is_pending_import, is_pending_deletion_state}

unfoldable pub enable : KeyMetadata → KeyMetadata
enable m = record m { enabled = true; key_state = KeyState.enabled }

unfoldable pub disable : KeyMetadata → KeyMetadata
disable m = record m { enabled = false; key_state = KeyState.disabled }

unfoldable pub schedule : ℕ → KeyMetadata → KeyMetadata
schedule date m = record m {
  enabled = false;
  key_state = KeyState.pending_deletion;
  deletion_date = date;
}

unfoldable pub cancel : KeyMetadata → KeyMetadata
cancel m = record m { enabled = false; key_state = KeyState.disabled; deletion_date = 0 }

-- The window is 30 days where none is given.
abbrev pub window : Option ℤ → ℤ
window none = pos 30
window (some days) = days

module _ (B : Backend) (env : Env) where
  -- A change of the metadata that is saved.
  abbrev pub update : (KeyMetadata → KeyMetadata) → Key → Api B Key
  update f key = do
    let key' = set_metadata key (f (get_metadata key))
    expect internal_failure (save_key B env key')
    pure key'

  unfoldable pub enable_key : Option Text → Api B Key
  enable_key key_id = do
    id ← require key_id missing_parameter
    key ← get_key B env id
    raise_if (is_pending_deletion_state (get_metadata key).key_state) kms_invalid_state
    raise_if (is_pending_import (get_metadata key).key_state) kms_invalid_state
    update enable key

  unfoldable pub disable_key : Option Text → Api B Key
  disable_key key_id = do
    id ← require key_id missing_parameter
    key ← get_key B env id
    raise_if (is_pending_deletion_state (get_metadata key).key_state) kms_invalid_state
    raise_if (is_pending_import (get_metadata key).key_state) kms_invalid_state
    update disable key

  unfoldable pub schedule_key_deletion : Option Text → Option ℤ → Api B Key
  schedule_key_deletion key_id pending_window_in_days = do
    id ← require key_id missing_parameter
    let days = window pending_window_in_days
    raise_if (below days 7 || above days 30) validation
    key ← find_key B env id
    raise_if (is_pending_deletion_state (get_metadata key).key_state) kms_invalid_state
    update (schedule (add_days (to_nat days) env.now)) key

  unfoldable pub cancel_key_deletion : Option Text → Api B Key
  cancel_key_deletion key_id = do
    id ← require key_id missing_parameter
    key ← find_key B env id
    raise_if (not (is_pending_deletion_state (get_metadata key).key_state)) kms_invalid_state
    update cancel key
