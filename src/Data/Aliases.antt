-- ===== src/Data/Aliases.antt =====
-- data/database_alias.go
pub mod Stored
use local_kms.Prelude.{
  ℕ, Bool, true, false, not, ◌&&◌, is_empty, Text, text_eq, Option, none, some, List, if◌then◌else◌,
}
use local_kms.Config.{Env}
use local_kms.Exec.{Exec, lift, check, ◌>>=◌, ◌>>◌}
use local_kms.Data.{Alias, DataError, not_found, corrupted}
use local_kms.Data.Backend.{Backend}
use local_kms.Data.Database.{Db, put_object, validate_alias_data, or_err}
use local_kms.Data.Listing.{Marker, Reading, broken, skipped, found, page}

-- An empty `key` filters nothing.
abbrev pub keep_alias : Text → Option Alias → Reading Alias
keep_alias key none = broken
keep_alias key (some a) =
    if not (is_empty key) && not (text_eq a.target_key_id key) then skipped else found a

module _ (B : Backend) where
  open B use {Store, get, iterate, iterator_error, encode_alias, decode_alias}

  unfoldable pub save_alias : Env → Alias → Db B Unit
  save_alias env a = do
    check (validate_alias_data B a)
    put_object B env a.alias_arn (encode_alias a)

  unfoldable pub load_alias : Text → Db B Alias
  load_alias arn = do
    encoded ← (λ d. (or_err B (get d arn) not_found, d))
    lift (or_err B (decode_alias encoded) corrupted)

  unfoldable pub list_alias : Text → ℕ → Marker → Text → Db B (List Alias)
  list_alias prefix limit marker key d = (
    page (λ v. keep_alias key (decode_alias v)) (iterator_error d prefix) marker limit
        (iterate d prefix),
    d,
  )
