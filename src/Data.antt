-- ===== src/Data.antt =====
-- data/: the records of the database and the storage that they are kept in.
pub mod Backend
pub mod DiskSpace
pub mod Database
pub mod Keys
pub mod Aliases
pub mod Tags
pub mod Grants
pub mod Listing
pub mod Recovery
use local_kms.Prelude.{ℕ, Text, Option, List}

-- data/alias.go; dates are in nanoseconds
pub record Alias : Type 0 where
  pub alias_arn : Text
  pub alias_name : Text
  pub target_key_id : Text
  pub creation_date : ℕ
  pub last_updated_date : ℕ

-- data/tag.go
pub record Tag : Type 0 where
  pub tag_key : Text
  pub tag_value : Text

-- data/grant.go
pub record GrantConstraints : Type 0 where
  pub encryption_context_equals : List (Text × Text)
  pub encryption_context_subset : List (Text × Text)
  pub source_arn : Text

pub record Grant : Type 0 where
  pub grant_id : Text
  pub grant_token : Text
  pub name : Text
  pub key_arn : Text
  pub grantee_principal : Text
  pub grantee_service_principal : Text
  pub retiring_principal : Text
  pub retiring_service_principal : Text
  pub operations : List Text
  pub constraints : Option GrantConstraints
  pub creation_date : ℕ

-- `not_found` is what a failing read gives; the others are named for the check that fails.
pub data DataError : Type 0 where
  not_found corrupted invalid : DataError
  stat_failed no_space write_failed iterator_failed invalid_marker : DataError
