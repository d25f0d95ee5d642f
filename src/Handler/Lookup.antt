-- ===== src/Handler/Lookup.antt =====
-- The lookup of keys in handler/helpers.go.
use local_kms.Prelude.{◌==◌, not, Bool, true, false, Text, codes, [], contains, if◌then◌else◌}
use local_kms.Config.{Env, ensure_arn}
use local_kms.Exec.{pure, raise_if, ◌>>=◌, ◌>>◌}
use local_kms.Cmk.{Key, KeyState, get_metadata}
use local_kms.Data.Backend.{Backend}
use local_kms.Data.Keys.{load_key}
use local_kms.Data.Aliases.{load_alias}
use local_kms.Handler.Responses.{Api, expect, not_found, kms_invalid_state, disabled}

abbrev pub is_pending_import : KeyState → Bool
is_pending_import KeyState.pending_import = true
is_pending_import _ = false

abbrev pub is_pending_deletion_state : KeyState → Bool
is_pending_deletion_state KeyState.pending_deletion = true
is_pending_deletion_state _ = false

abbrev pub is_unavailable : KeyState → Bool
is_unavailable KeyState.unavailable = true
is_unavailable _ = false

module _ (B : Backend) (env : Env) where
  -- `LoadKey(EnsureArn("key/", id))`, where any error means that there is no such key
  unfoldable pub find_key : Text → Api B Key
  find_key id = expect not_found (load_key B env (ensure_arn env (codes "key/") id))

  unfoldable pub get_key : Text → Api B Key
  get_key key_id =
      if contains (codes "alias/") key_id
      then (do
        alias ← expect not_found (load_alias B (ensure_arn env [] key_id))
        find_key alias.target_key_id)
      else find_key key_id

  unfoldable pub get_usable_key : Text → Api B Key
  get_usable_key key_id = do
    key ← get_key key_id
    raise_if (is_pending_import (get_metadata key).key_state) kms_invalid_state
    raise_if (not ((get_metadata key).deletion_date == 0)) kms_invalid_state
    raise_if (not (get_metadata key).enabled) disabled
    pure key
