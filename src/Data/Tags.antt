-- ===== src/Data/Tags.antt =====
-- data/database_tag.go: a tag is stored under the ARN of its key and its own name.
use local_kms.Prelude.{ℕ, Text, codes, ◌++◌, length, Option, none, some, List, if◌then◌else◌}
use local_kms.Config.{Env}
use local_kms.Result.{ok, err}
use local_kms.Exec.{check, ◌>>◌}
use local_kms.Cmk.{Key, get_arn}
use local_kms.Data.{Tag, iterator_failed}
use local_kms.Data.Backend.{Backend}
use local_kms.Data.Database.{Db, put_object, validate_tag_data}
use local_kms.Data.Listing.{Marker, Reading, broken, found, page}

unfoldable pub tag_name : Text → Text → Text
tag_name key_arn tag_key = key_arn ++ (codes "/tag/" ++ tag_key)

abbrev read_tag : Option Tag → Reading Tag
read_tag none = broken
read_tag (some t) = found t

module _ (B : Backend) where
  open B use {Store, iterate, iterator_error, encode_tag, decode_tag}

  unfoldable pub save_tag : Env → Key → Tag → Db B Unit
  save_tag env k t = do
    check (validate_tag_data B t)
    put_object B env (tag_name (get_arn k) t.tag_key) (encode_tag t)

  unfoldable pub count_tags : Text → Db B ℕ
  count_tags key_arn d =
      let prefix = key_arn ++ codes "/tag" in
      (if iterator_error d prefix then err iterator_failed else ok (length (iterate d prefix)), d)

  abbrev tag_marker : Text → Marker → Marker
  tag_marker prefix none = none
  tag_marker prefix (some m) = some (tag_name prefix m)

  unfoldable pub list_tags : Text → ℕ → Marker → Db B (List Tag)
  list_tags key_arn limit marker d =
      let prefix = key_arn ++ codes "/tag" in
      (
        page (λ v. read_tag (decode_tag v)) (iterator_error d prefix) (tag_marker key_arn marker)
            limit (iterate d prefix),
        d,
      )
