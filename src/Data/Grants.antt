-- ===== src/Data/Grants.antt =====
-- data/database_grant.go
pub mod Stored
use local_kms.Prelude.{
  ℕ, Bool, true, false, not, ◌&&◌, ◌||◌, is_empty, Text, text_eq, codes, ◌++◌, Option, none, some,
  List, [], ◌∷◌, if◌then◌else◌,
}
use local_kms.Config.{Env}
use local_kms.Result.{Result, ok, err}
use local_kms.Exec.{Exec, lift, check, ◌>>=◌, ◌>>◌}
use local_kms.Data.{Grant, DataError, not_found, corrupted, iterator_failed}
use local_kms.Data.Backend.{Backend}
use local_kms.Data.Database.{Db, put_object, delete_object, validate_grant_data, or_err}
use local_kms.Data.Listing.{Marker, Reading, broken, skipped, found, page}

abbrev pub grant_prefix : Text
grant_prefix = codes "grant/"

unfoldable pub grant_storage_key : Text → Text
grant_storage_key grant_id = grant_prefix ++ grant_id

-- An empty field is not filtered on.
pub record GrantFilter : Type 0 where
  pub key_arn : Text
  pub grant_id : Text
  pub grantee_principal : Text
  pub grantee_service_principal : Text
  pub retiring_principal : Text
  pub retiring_service_principal : Text

-- `f != "" && g != f`
unfoldable pub differs : Text → Text → Bool
differs f g = not (is_empty f) && not (text_eq g f)

unfoldable pub matches : GrantFilter → Grant → Bool
matches f g =
    if differs f.key_arn g.key_arn
    then false
    else if differs f.grant_id g.grant_id
    then false
    else if differs f.grantee_principal g.grantee_principal
    then false
    else if differs f.grantee_service_principal g.grantee_service_principal
    then false
    else if differs f.retiring_principal g.retiring_principal
    then false
    else if differs f.retiring_service_principal g.retiring_service_principal
    then false
    else true

abbrev pub keep_grant : (Grant → Bool) → Option Grant → Reading Grant
keep_grant include none = broken
keep_grant include (some g) = if include g then found g else skipped

module _ (B : Backend) where
  open B use {Store, Value, get, iterate, iterator_error, encode_grant, decode_grant}

  unfoldable pub save_grant : Env → Grant → Db B Unit
  save_grant env g = do
    check (validate_grant_data B g)
    put_object B env (grant_storage_key g.grant_id) (encode_grant g)

  unfoldable pub load_grant : Text → Db B Grant
  load_grant grant_id = do
    encoded ← (λ d. (or_err B (get d (grant_storage_key grant_id)) not_found, d))
    lift (or_err B (decode_grant encoded) corrupted)

  unfoldable pub delete_grant : Env → Text → Db B Unit
  delete_grant env grant_id = delete_object B env (grant_storage_key grant_id)

  -- The first grant with the token, if no entry before it is broken.
  unfoldable pub find_in : Text → Bool → List (Text × Value) → Result DataError (Option Grant)
  find_in token failed [] = if failed then err iterator_failed else ok none
  find_in token failed ((name, v) ∷ es) =
      let rest = find_in token failed es in
      elim (decode_grant v) [
        | none ↦ err corrupted
        | some g ↦ if text_eq g.grant_token token then ok (some g) else rest
      ]

  unfoldable pub find_grant_by_token : Text → Db B (Option Grant)
  unfolding find_in
  find_grant_by_token token d =
      (find_in token (iterator_error d grant_prefix) (iterate d grant_prefix), d)

  abbrev grant_marker : Marker → Marker
  grant_marker none = none
  grant_marker (some m) = some (grant_storage_key m)

  unfoldable pub scan_grants : ℕ → Marker → (Grant → Bool) → Db B (List Grant)
  scan_grants limit marker include d = (
    page (λ v. keep_grant include (decode_grant v)) (iterator_error d grant_prefix)
        (grant_marker marker) limit (iterate d grant_prefix),
    d,
  )

  unfoldable pub list_grants : GrantFilter → ℕ → Marker → Db B (List Grant)
  unfolding scan_grants
  list_grants filter limit marker = scan_grants limit marker (matches filter)
