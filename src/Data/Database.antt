-- ===== src/Data/Database.antt =====
-- data/database.go and data_validation.go: guarded writes.
pub mod Writes
use local_kms.Prelude.{
  ℕ, zero, suc, Bool, true, false, not, ◌&&◌, is_empty, Text, Option, none, some, List, [], ◌∷◌,
  if◌then◌else◌,
}
use local_kms.Config.{Env}
use mathlib.Core.Option
use local_kms.Result.{Result, ok, err}
use local_kms.Exec.{Exec, pure, raise, check, ◌>>=◌, ◌>>◌}
use local_kms.Cmk.{Key, AesKey, aes, rsa, ecc, hmac, is_external}
use local_kms.Data.{DataError, Alias, Tag, Grant, not_found, corrupted, invalid, write_failed}
use local_kms.Data.Backend.{Backend}
use local_kms.Data.DiskSpace.{check_disk_space}

abbrev no_backing_keys : Key → Bool
no_backing_keys (aes k) =
    not (is_external k.metadata.origin) && elim k.backing_keys [ [] ↦ true | _ ↦ false ]
no_backing_keys _ = false

module _ (B : Backend) where
  open B use {
    Store, Value, put, delete, encode_key, encode_alias, encode_tag, encode_grant, decode_type,
    decode_aes, decode_rsa, decode_ecc, decode_hmac, decode_alias, decode_tag, decode_grant,
  }

  abbrev pub Db : Type 0 → Type 0
  Db A = Exec Store DataError A

  -- What a write or a deletion does to the store, if it can be made.
  abbrev pub commit : Option Store → Db Unit
  commit none d = (err write_failed, d)
  commit (some d') d = (ok tt, d')

  unfoldable pub delete_object : Env → Text → Db Unit
  delete_object env arn = check (check_disk_space env) >> (λ d. commit (delete d arn) d)

  unfoldable pub put_object : Env → Text → Value → Db Unit
  put_object env key value = check (check_disk_space env) >> (λ d. commit (put d key value) d)

  -- The field Type of the stored text selects the kind; it is 0, for AES, where it is not set.
  abbrev decode_as : Value → ℕ → Option Key
  decode_as v zero = Option.map aes (decode_aes v)
  decode_as v (suc zero) = Option.map rsa (decode_rsa v)
  decode_as v (suc (suc zero)) = Option.map ecc (decode_ecc v)
  decode_as v (suc (suc (suc zero))) = Option.map hmac (decode_hmac v)
  decode_as v _ = none

  unfoldable pub unmarshal_key : Value → Option Key
  unmarshal_key v = elim (decode_type v) [ none ↦ none | some t ↦ decode_as v t ]

  abbrev pub or_err : {A : Type 0} → Option A → DataError → Result DataError A
  or_err none e = err e
  or_err (some a) e = ok a

  -- `ValidateKeyData` and its like: the text must be read back.
  abbrev readable : {A : Type 0} → Option A → Option DataError
  readable none = some invalid
  readable (some a) = none

  unfoldable pub validate_key_data : Key → Option DataError
  validate_key_data k =
      if no_backing_keys k then some invalid else readable (unmarshal_key (encode_key k))

  unfoldable pub validate_alias_data : Alias → Option DataError
  validate_alias_data a = readable (decode_alias (encode_alias a))

  unfoldable pub validate_tag_data : Tag → Option DataError
  validate_tag_data t = readable (decode_tag (encode_tag t))

  unfoldable pub validate_grant_data : Grant → Option DataError
  validate_grant_data g = readable (decode_grant (encode_grant g))
