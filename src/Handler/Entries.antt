-- ===== src/Handler/Entries.antt =====
-- handler/grant_helpers.go: the form in which grants are listed, without their tokens.
use local_kms.Prelude.{ℕ, Text, Option, none, some, List, map}
use local_kms.Data.{Grant, GrantConstraints}
use local_kms.Handler.Responses.{Page}

pub record EntryConstraints : Type 0 where
  pub encryption_context_equals : List (Text × Text)
  pub encryption_context_subset : List (Text × Text)
  pub source_arn : Text

pub record GrantListEntry : Type 0 where
  pub grant_id : Text
  pub name : Text
  pub key_id : Text
  pub grantee_principal : Text
  pub grantee_service_principal : Text
  pub retiring_principal : Text
  pub retiring_service_principal : Text
  pub operations : List Text
  pub constraints : Option EntryConstraints
  pub creation_date : ℕ

abbrev entry_constraints : Option GrantConstraints → Option EntryConstraints
entry_constraints none = none
entry_constraints (some c) = some (record {
  encryption_context_equals = c.encryption_context_equals;
  encryption_context_subset = c.encryption_context_subset;
  source_arn = c.source_arn;
})

unfoldable pub new_grant_list_entry : Grant → GrantListEntry
new_grant_list_entry g = record {
  grant_id = g.grant_id;
  name = g.name;
  key_id = g.key_arn;
  grantee_principal = g.grantee_principal;
  grantee_service_principal = g.grantee_service_principal;
  retiring_principal = g.retiring_principal;
  retiring_service_principal = g.retiring_service_principal;
  operations = g.operations;
  constraints = entry_constraints g.constraints;
  creation_date = g.creation_date;
}

-- The marker is that of the page of grants.
abbrev pub list_entries : Page Grant → Page GrantListEntry
list_entries p = record { next_marker = p.next_marker; items = map new_grant_list_entry p.items }
