-- ===== src/Handler/Tags.antt =====
-- handler/tag_resource.go, untag_resource.go, list_resource_tags.go, and the tag helpers of
-- handler/helpers.go.
pub mod Validation
use local_kms.Prelude.{
  ℕ, suc, ◌+◌, ◌≡◌, not, ◌&&◌, ◌||◌, Bool, true, false, ltb, to_nat, ℤ, Text, text_eq, codes,
  has_prefix, length, Option, none, some, List, [], ◌∷◌, if◌then◌else◌,
}
use local_kms.Config.{Env, ensure_arn}
use local_kms.Result.{Result, ok, err, panic}
use local_kms.Exec.{Exec, pure, raise, lift, raise_if, check, ◌>>=◌, ◌>>◌}
use local_kms.Cmk.{Key, get_metadata, get_arn}
use local_kms.Data.{Tag}
use local_kms.Data.Backend.{Backend}
use local_kms.Data.Database.{delete_object}
use local_kms.Data.Tags.{tag_name, save_tag, count_tags, list_tags}
use local_kms.Handler.Responses.{
  Exception, Api, Page, expect, require, missing_parameter, validation, kms_invalid_state,
  tag_exception, internal_failure,
}
use local_kms.Handler.Lookup.{find_key, get_key, is_pending_deletion_state}
use local_kms.Handler.Listing.{to_marker, limit_or, out_of_range, paginate}

abbrev pub max_tags_per_key : ℕ
max_tags_per_key = 50

-- `kmstypes.Tag`, whose fields may be missing
pub record TagInput : Type 0 where
  pub tag_key : Option Text
  pub tag_value : Option Text

abbrev pub reserved : Option Text → Bool
reserved none = false
reserved (some k) = has_prefix (codes "aws:") k

abbrev pub any_reserved : List TagInput → Bool
any_reserved [] = false
any_reserved (t ∷ ts) = reserved t.tag_key || any_reserved ts

-- The name is missing or empty, or too long.
abbrev pub bad_key : Option Text → Bool
bad_key none = true
bad_key (some k) = ltb (length k) 1 || ltb 128 (length k)

-- The value is missing, or too long; it may be empty.
abbrev pub bad_value : Option Text → Bool
bad_value none = true
bad_value (some v) = ltb 256 (length v)

abbrev pub any_bad : List TagInput → Bool
any_bad [] = false
any_bad (t ∷ ts) = bad_key t.tag_key || bad_value t.tag_value || any_bad ts

-- All reserved names are refused before the other checks.
unfoldable pub validate_tags : List TagInput → Option Exception
validate_tags tags =
    if any_reserved tags then some tag_exception else if any_bad tags then some validation else none

-- `*kv.TagKey` and `*kv.TagValue`, which panic on a missing field
unfoldable pub tag_of : TagInput → Result Exception Tag
tag_of t = elim t.tag_key [
  | none ↦ panic
  | some k ↦ elim t.tag_value [ none ↦ panic | some v ↦ ok (record { tag_key = k; tag_value = v }) ]
]

abbrev deref : Option Text → Result Exception Text
deref none = panic
deref (some t) = ok t

names_tag : Text → List Tag → Bool
names_tag k [] = false
names_tag k (t ∷ ts) = text_eq t.tag_key k || names_tag k ts

-- How many of the tags have a name that the key does not have yet.
unfoldable pub count_new : List Tag → List TagInput → Result Exception ℕ
unfolding names_tag
count_new existing [] = ok 0
count_new existing (t ∷ ts) =
    let rest = count_new existing ts in
    elim (deref t.tag_key) [
      | ok k ↦ elim rest [
        | ok n ↦ ok (if names_tag k existing then n else suc n)
        | err e ↦ err e
        | panic ↦ panic
      ]
      | err e ↦ err e
      | panic ↦ panic
    ]

module _ (B : Backend) (env : Env) where
  unfoldable pub save_tags : Key → List TagInput → Api B Unit
  save_tags key [] = pure tt
  save_tags key (t ∷ ts) = do
    tag ← lift (tag_of t)
    expect internal_failure (save_tag B env key tag)
    save_tags key ts

  unfoldable pub check_quota : Key → List TagInput → Api B Unit
  check_quota key [] = pure tt
  check_quota key (t ∷ ts) = do
    current ← expect internal_failure (count_tags B (get_arn key))
    existing ← expect internal_failure (list_tags B (get_arn key) (current + 1) none)
    new ← lift (count_new existing (t ∷ ts))
    raise_if (ltb max_tags_per_key (current + new)) tag_exception

  unfoldable pub tag_resource : Option Text → Option (List TagInput) → Api B Unit
  tag_resource key_id tags = do
    id ← require key_id validation
    ts ← require tags validation
    check (validate_tags ts)
    key ← get_key B env id
    raise_if (is_pending_deletion_state (get_metadata key).key_state) kms_invalid_state
    check_quota key ts
    save_tags key ts

  unfoldable pub delete_tags : Key → List Text → Api B Unit
  delete_tags key [] = pure tt
  delete_tags key (k ∷ ks) = do
    expect internal_failure (delete_object B env (tag_name (get_arn key) k))
    delete_tags key ks

  unfoldable pub untag_resource : Option Text → Option (List Text) → Api B Unit
  untag_resource key_id tag_keys = do
    id ← require key_id validation
    ks ← require tag_keys validation
    key ← get_key B env id
    raise_if (is_pending_deletion_state (get_metadata key).key_state) kms_invalid_state
    delete_tags key ks

  -- Every error of the listing is an internal failure here, an unknown marker too.
  unfoldable pub list_resource_tags : Option Text → Option ℤ → Option Text → Api B (Page Tag)
  list_resource_tags key_id limit marker = do
    let n = limit_or 50 limit
    raise_if (out_of_range n 1000) validation
    id ← require key_id missing_parameter
    key ← find_key B env id
    tags ← expect internal_failure (list_tags B (get_arn key) (suc (to_nat n)) (to_marker marker))
    pure (paginate (λ t. t.tag_key) (to_nat n) tags)
