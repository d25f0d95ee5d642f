-- ===== src/Handler/Rotation.antt =====
-- handler/enable_key_rotation.go, disable_key_rotation.go, rotate_key_on_demand.go and
-- get_key_rotation_status.go.
pub mod Invariant
use local_kms.Prelude.{ℕ, not, ◌==◌, Text, Option, none, some}
use local_kms.Config.{Env}
use local_kms.Clock.{unix, add_year}
use local_kms.Result.{Result, ok, err, panic}
use local_kms.Exec.{pure, lift, raise_if, ◌>>=◌, ◌>>◌}
use local_kms.Cmk.{Key, AesKey, aes, get_metadata, get_arn, is_external}
use local_kms.Cmk.Aes.{rotate_on_demand}
use local_kms.Cmk.Errors.{CmkError}
use local_kms.Data.Backend.{Backend}
use local_kms.Data.Keys.{save_key}
use local_kms.Handler.Responses.{
  Exception, Api, expect, require, missing_parameter, unsupported_operation, kms_invalid_state,
  disabled, limit_exceeded, internal_failure,
}
use local_kms.Handler.Lookup.{find_key, get_key}

-- `key.(*cmk.AesKey)`
abbrev pub as_aes : Key → Option AesKey
as_aes (aes k) = some k
as_aes _ = none

abbrev pub next_rotation : Option ℕ → ℕ → Option ℕ
next_rotation none now = some (add_year now)
next_rotation (some t) now = some t

abbrev pub or_limit : Result CmkError AesKey → Result Exception AesKey
or_limit (ok k) = ok k
or_limit (err e) = err limit_exceeded
or_limit panic = panic

-- `enabled` with the date of the next rotation in seconds
pub record RotationStatus : Type 0 where
  pub key_id : Text
  pub next_rotation_date : Option ℕ

module _ (B : Backend) (env : Env) where
  -- The checks that the rotation handlers have in common.
  unfoldable pub rotatable : Key → Api B AesKey
  rotatable key = do
    raise_if (is_external (get_metadata key).origin) unsupported_operation
    k ← require (as_aes key) unsupported_operation
    raise_if (not ((get_metadata key).deletion_date == 0)) kms_invalid_state
    raise_if (not (get_metadata key).enabled) disabled
    pure k

  -- A rotation that is set already keeps its date.
  unfoldable pub enable_key_rotation : Option Text → Api B Unit
  unfolding rotatable
  enable_key_rotation key_id = do
    id ← require key_id missing_parameter
    key ← find_key B env id
    k ← rotatable key
    let k' = record k { next_key_rotation = next_rotation k.next_key_rotation env.now }
    expect internal_failure (save_key B env (aes k'))

  unfoldable pub disable_key_rotation : Option Text → Api B Unit
  unfolding rotatable
  disable_key_rotation key_id = do
    id ← require key_id missing_parameter
    key ← find_key B env id
    k ← rotatable key
    expect internal_failure (save_key B env (aes (record k { next_key_rotation = none })))

  unfoldable pub rotate_key_on_demand : Option Text → Api B Text
  unfolding rotatable
  rotate_key_on_demand key_id = do
    id ← require key_id missing_parameter
    key ← get_key B env id
    k ← rotatable key
    k' ← lift (or_limit (rotate_on_demand env k))
    expect internal_failure (save_key B env (aes k'))
    pure (get_arn key)

  unfoldable pub get_key_rotation_status : Option Text → Api B RotationStatus
  get_key_rotation_status key_id = do
    id ← require key_id missing_parameter
    key ← get_key B env id
    raise_if (is_external (get_metadata key).origin) unsupported_operation
    k ← require (as_aes key) unsupported_operation
    pure (record {
      key_id = get_arn key;
      next_rotation_date = elim k.next_key_rotation [ none ↦ none | some t ↦ some (unix t) ];
    })
