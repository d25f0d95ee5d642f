-- ===== src/Handler/Aliases.antt =====
-- handler/create_alias.go, update_alias.go, delete_alias.go and list_aliases.go.
pub mod Resolution
pub mod Reserved
use local_kms.Prelude.{
  ℕ, suc, ◌+◌, ◌*◌, ◌==◌, not, ◌&&◌, ◌||◌, Bool, true, false, leb, ltb, to_nat, ℤ, Text, text_eq,
  codes, has_prefix, ◌++◌, length, drop, Option, none, some, List, [], ◌∷◌, if◌then◌else◌,
}
use local_kms.Config.{Env, arn_prefix, ensure_arn}
use local_kms.Clock.{second, unix}
use local_kms.Exec.{Exec, pure, raise, raise_if, ◌>>=◌, ◌>>◌}
use local_kms.Cmk.{Key, KeyUsage, get_metadata}
use local_kms.Data.{Alias}
use local_kms.Data.Backend.{Backend, type_of}
use local_kms.Data.Database.{delete_object}
use local_kms.Data.Keys.{load_key}
use local_kms.Data.Aliases.{save_alias, load_alias, list_alias}
use local_kms.Handler.Responses.{
  Api, Page, expect, require, attempt, missing_parameter, invalid_alias_name, not_authorized,
  validation, kms_invalid_state, already_exists, not_found, internal_failure,
}
use local_kms.Handler.Lookup.{find_key}
use local_kms.Handler.Listing.{to_marker, limit_or, out_of_range, paginate, expect_list}

abbrev pub alias_namespace : Text
alias_namespace = codes "alias/"

in_range : ℕ → ℕ → ℕ → Bool
in_range lo hi c = leb lo c && leb c hi

-- [a-zA-Z0-9/_-]
unfoldable pub alias_char : ℕ → Bool
unfolding in_range
alias_char c =
    in_range b'a' b'z' c
    || in_range b'A' b'Z' c
    || in_range b'0' b'9' c
    || c == b'/'
    || c == b'_'
    || c == b'-'

abbrev all_alias_chars : Text → Bool
all_alias_chars [] = true
all_alias_chars (c ∷ cs) = alias_char c && all_alias_chars cs

abbrev one_or_more : Text → Bool
one_or_more [] = false
one_or_more (c ∷ cs) = all_alias_chars (c ∷ cs)

-- The regular expression ^alias/[a-zA-Z0-9/_-]+$
unfoldable pub valid_alias_name : Text → Bool
valid_alias_name name = has_prefix alias_namespace name && one_or_more (drop 6 name)

abbrev pub usage_text : KeyUsage → Text
usage_text KeyUsage.unset = []
usage_text KeyUsage.encrypt_decrypt = codes "ENCRYPT_DECRYPT"
usage_text KeyUsage.sign_verify = codes "SIGN_VERIFY"
usage_text KeyUsage.generate_verify_mac = codes "GENERATE_VERIFY_MAC"
usage_text (KeyUsage.other t) = t

same_usage : Key → Key → Bool
same_usage a b =
    text_eq (usage_text (get_metadata a).key_usage) (usage_text (get_metadata b).key_usage)

abbrev pub is_some : {A : Type 0} → Option A → Bool
is_some none = false
is_some (some a) = true

module _ (B : Backend) (env : Env) where
  -- Dates of aliases are whole seconds.
  abbrev this_second : ℕ
  this_second = unix env.now * second

  unfoldable pub create_alias : Option Text → Option Text → Api B Unit
  create_alias target_key_id alias_name = do
    target ← require target_key_id missing_parameter
    name ← require alias_name missing_parameter
    raise_if (not (valid_alias_name name)) invalid_alias_name
    raise_if (has_prefix (codes "alias/aws/") name) not_authorized
    raise_if (ltb 256 (length name)) validation
    raise_if (has_prefix alias_namespace target) validation
    key ← find_key B env target
    raise_if (not ((get_metadata key).deletion_date == 0)) kms_invalid_state
    let alias_arn = arn_prefix env ++ name
    old ← attempt (load_alias B alias_arn)
    raise_if (is_some old) already_exists
    expect internal_failure (
        save_alias B env (record {
          alias_arn = alias_arn;
          alias_name = name;
          target_key_id = (get_metadata key).key_id;
          creation_date = this_second;
          last_updated_date = this_second;
        }))

  unfoldable pub update_alias : Option Text → Option Text → Api B Unit
  unfolding same_usage
  update_alias target_key_id alias_name = do
    target ← require target_key_id missing_parameter
    name ← require alias_name missing_parameter
    raise_if (not (has_prefix alias_namespace name)) validation
    raise_if (has_prefix (codes "alias/aws") name) not_authorized
    raise_if (ltb 256 (length name)) validation
    alias ← expect not_found (load_alias B (arn_prefix env ++ name))
    original ←
        expect internal_failure (load_key B env (ensure_arn env (codes "key/") alias.target_key_id))
    key ← find_key B env target
    raise_if (not (same_usage original key)) validation
    raise_if (not (type_of original == type_of key)) validation
    raise_if (not ((get_metadata key).deletion_date == 0)) kms_invalid_state
    expect internal_failure (
        save_alias B env (record alias {
          target_key_id = (get_metadata key).key_id;
          last_updated_date = this_second;
        }))

  unfoldable pub delete_alias : Option Text → Api B Unit
  delete_alias alias_name = do
    name ← require alias_name missing_parameter
    raise_if (not (has_prefix alias_namespace name)) validation
    raise_if (has_prefix (codes "alias/aws/") name) kms_invalid_state
    let alias_arn = arn_prefix env ++ name
    alias ← expect not_found (load_alias B alias_arn)
    expect internal_failure (delete_object B env alias_arn)

  -- The name of the key that the listing is for, or nothing.
  unfoldable pub key_filter : Option Text → Api B Text
  key_filter none = pure []
  key_filter (some key_id) = do key ← find_key B env key_id; pure (get_metadata key).key_id

  unfoldable pub list_aliases : Option Text → Option ℤ → Option Text → Api B (Page Alias)
  unfolding key_filter
  list_aliases key_id limit marker = do
    let n = limit_or 50 limit
    raise_if (out_of_range n 100) validation
    filter ← key_filter key_id
    aliases ← expect_list (
        list_alias B (arn_prefix env ++ alias_namespace) (suc (to_nat n)) (to_marker marker) filter)
    pure (paginate (λ a. a.alias_arn) (to_nat n) aliases)
