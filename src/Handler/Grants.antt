-- ===== src/Handler/Grants.antt =====
-- handler/create_grant.go, retire_grant.go, revoke_grant.go, list_grants.go and
-- list_retirable_grants.go.
pub mod Retiring
use local_kms.Prelude.{
  ℕ, suc, ◌*◌, ◌==◌, not, ◌&&◌, ◌||◌, Bool, true, false, to_nat, ℤ, Text, text_eq, Option, none,
  some, List, [], ◌∷◌, if◌then◌else◌,
}
use local_kms.Config.{Env}
use local_kms.Clock.{second, unix}
use local_kms.Result.{Result, ok, err, panic}
use local_kms.Exec.{Exec, pure, raise, raise_if, ◌>>=◌, ◌>>◌}
use local_kms.Cmk.{Key, get_metadata, get_arn}
use local_kms.Data.{Grant, GrantConstraints}
use local_kms.Data.Backend.{Backend}
use local_kms.Data.Grants.{
  GrantFilter, save_grant, load_grant, delete_grant, find_grant_by_token, list_grants,
}
use local_kms.Handler.Responses.{
  Exception, Api, Page, expect, require, missing_parameter, validation, kms_invalid_state,
  not_found, internal_failure,
}
use local_kms.Handler.Entries.{GrantListEntry, list_entries}
use local_kms.Handler.Lookup.{get_key}
use local_kms.Handler.Listing.{to_marker, limit_or, out_of_range, paginate, expect_list}

pub record CreateGrantInput : Type 0 where
  pub key_id : Option Text
  pub operations : List Text
  pub name : Option Text
  pub grantee_principal : Option Text
  pub grantee_service_principal : Option Text
  pub retiring_principal : Option Text
  pub retiring_service_principal : Option Text
  pub constraints : Option GrantConstraints

abbrev or_empty : Option Text → Text
or_empty none = []
or_empty (some t) = t

-- The field is there and is not empty.
abbrev given : Option Text → Bool
given none = false
given (some []) = false
given (some (c ∷ cs)) = true

abbrev is_nil : {A : Type 0} → List A → Bool
is_nil [] = true
is_nil (x ∷ xs) = false

abbrev is_some : {A : Type 0} → Option A → Bool
is_some none = false
is_some (some a) = true

-- `encode` is base64.URLEncoding without padding, of Go's package encoding/base64.
unfoldable pub new_grant : Env → (Text → Text) → Text → Key → CreateGrantInput → Grant
new_grant env encode id key body = record {
  grant_id = id;
  grant_token = encode (env.random id 0 32);
  name = or_empty body.name;
  key_arn = get_arn key;
  grantee_principal = or_empty body.grantee_principal;
  grantee_service_principal = or_empty body.grantee_service_principal;
  retiring_principal = or_empty body.retiring_principal;
  retiring_service_principal = or_empty body.retiring_service_principal;
  operations = body.operations;
  constraints = body.constraints;
  creation_date = unix env.now * second;
}

-- `*body.GrantId != "" && *body.GrantId != grant.GrantId`
abbrev pub other_than : Option Text → Text → Bool
other_than o t = given o && not (text_eq (or_empty o) t)

module _ (B : Backend) (env : Env) where
  unfoldable pub create_grant : (Text → Text) → CreateGrantInput → Api B Grant
  create_grant encode body = do
    key_id ← require body.key_id missing_parameter
    raise_if (is_nil body.operations) missing_parameter
    raise_if (not (is_some body.grantee_principal) && not (is_some body.grantee_service_principal))
        validation
    raise_if (is_some body.grantee_principal && is_some body.grantee_service_principal) validation
    key ← get_key B env key_id
    raise_if (not ((get_metadata key).deletion_date == 0)) kms_invalid_state
    id ← require env.uuid internal_failure
    let grant = new_grant env encode id key body
    expect internal_failure (save_grant B env grant)
    pure grant

  -- A grant of the key by its ID.
  abbrev pub grant_of : Key → Text → Api B Grant
  grant_of key grant_id = do
    grant ← expect not_found (load_grant B grant_id)
    raise_if (not (text_eq grant.key_arn (get_arn key))) not_found
    pure grant

  unfoldable pub revoke_grant : Option Text → Option Text → Api B Unit
  revoke_grant key_id grant_id = do
    k ← require key_id missing_parameter
    g ← require grant_id missing_parameter
    key ← get_key B env k
    grant ← grant_of key g
    expect internal_failure (delete_grant B env grant.grant_id)

  -- The key is only looked at where one is named.
  unfoldable pub check_key : Option Text → Grant → Api B Unit
  check_key none grant = pure tt
  check_key (some []) grant = pure tt
  check_key (some (c ∷ cs)) grant = do
    key ← get_key B env (c ∷ cs)
    raise_if (not (text_eq (get_arn key) grant.key_arn)) not_found

  unfoldable pub retire_by_token : Text → Option Text → Option Text → Api B Unit
  unfolding check_key
  retire_by_token token key_id grant_id = do
    found ← expect internal_failure (find_grant_by_token B token)
    grant ← require found not_found
    raise_if (other_than grant_id grant.grant_id) not_found
    check_key key_id grant
    expect internal_failure (delete_grant B env grant.grant_id)

  unfoldable pub retire_by_id : Text → Text → Api B Unit
  retire_by_id key_id grant_id = do
    key ← get_key B env key_id
    grant ← grant_of key grant_id
    expect internal_failure (delete_grant B env grant.grant_id)

  unfoldable pub retire_grant : Option Text → Option Text → Option Text → Api B Unit
  retire_grant grant_token key_id grant_id =
      if not (given grant_token) && not (given key_id && given grant_id)
      then raise validation
      else if given grant_token
      then retire_by_token (or_empty grant_token) key_id grant_id
      else retire_by_id (or_empty key_id) (or_empty grant_id)

  abbrev grant_page : GrantFilter → ℤ → Option Text → Api B (Page GrantListEntry)
  grant_page filter n marker = do
    grants ← expect_list (list_grants B filter (suc (to_nat n)) (to_marker marker))
    pure (list_entries (paginate (λ g. g.grant_id) (to_nat n) grants))

  unfoldable pub list_key_grants :
      Option Text
      → Option Text
      → Option Text
      → Option Text
      → Option ℤ
      → Option Text
      → Api B (Page GrantListEntry)
  list_key_grants key_id grant_id grantee service limit marker = do
    k ← require key_id missing_parameter
    let n = limit_or 50 limit
    raise_if (out_of_range n 100) validation
    key ← get_key B env k
    grant_page
        (record {
          key_arn = get_arn key;
          grant_id = or_empty grant_id;
          grantee_principal = or_empty grantee;
          grantee_service_principal = or_empty service;
          retiring_principal = [];
          retiring_service_principal = [];
        })
        n marker

  unfoldable pub list_retirable_grants :
      Option Text → Option Text → Option ℤ → Option Text → Api B (Page GrantListEntry)
  list_retirable_grants principal service limit marker = do
    raise_if (not (is_some principal) && not (is_some service)) missing_parameter
    let n = limit_or 50 limit
    raise_if (out_of_range n 100) validation
    grant_page
        (record {
          key_arn = [];
          grant_id = [];
          grantee_principal = [];
          grantee_service_principal = [];
          retiring_principal = or_empty principal;
          retiring_service_principal = or_empty service;
        })
        n marker
