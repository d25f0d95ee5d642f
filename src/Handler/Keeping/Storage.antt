-- ===== src/Handler/Keeping/Storage.antt =====
-- The calls of data/ that handlers make, other than to save a key: what they leave of the keys.
use local_kms.Prelude.{◌≡◌, ℕ, Text, some, arith}
use local_kms.Config.{Env}
use local_kms.Exec.Hoare.{Post-state}
use local_kms.Exec.Preserves.{Preserves-Hoare, Preserves-unchanged}
use local_kms.Cmk.{Key, get_metadata, get_arn}
use local_kms.Data.{Alias, Tag, Grant}
use local_kms.Data.Backend.{Backend}
use local_kms.Data.Database.{Db, unmarshal_key, delete_object, validate_tag_data}
use local_kms.Data.Database.Writes.{Sets, put_object-Sets}
use local_kms.Data.Keys.{load_key}
use local_kms.Data.Keys.Sound.{SetsKey-Post, delete_object-IsSound, load_key-IsSound}
use local_kms.Data.Keys.Stored.{SetsKey-of-Sets}
use local_kms.Data.Listing.{Marker}
use local_kms.Data.Tags.{tag_name, save_tag, count_tags, list_tags}
use local_kms.Data.Aliases.{save_alias, load_alias, list_alias}
use local_kms.Data.Aliases.Stored.{save_alias-Sets}
use local_kms.Data.Grants.{
  GrantFilter, save_grant, load_grant, delete_grant, find_grant_by_token, list_grants,
  grant_storage_key,
}
use local_kms.Data.Grants.Stored.{save_grant-Sets}
use local_kms.Handler.Rules.{load_alias_same}
use local_kms.Handler.Consistency.{
  IsConsistent, AllConsistent, IsConsistent-renamed, IsConsistent-reset,
}
use local_kms.Handler.Keeping.Calls.{Keeps, handling}

module _ (B : Backend) where
  -- What can be read as a key of the value, if anything, is consistent: such as a key with no field set.
  abbrev pub Harmless : B.Value → Type 0
  Harmless v = (k : Key) → unmarshal_key B v ≡ some k → IsConsistent (get_metadata k)

-- No alias, tag or grant can be read as a key that is not consistent.
pub record Apart (B : Backend) : Type 0 where
  pub aliases : (a : Alias) → Harmless B (B.encode_alias a)
  pub tags : (t : Tag) → Harmless B (B.encode_tag t)
  pub grants : (g : Grant) → Harmless B (B.encode_grant g)

module _ (B : Backend) (env : Env) where
  pub save_tag-Sets :
      (k : Key) (t : Tag) (d : B.Store)
      → Sets B d (tag_name (get_arn k) t.tag_key) (some (B.encode_tag t)) (save_tag B env k t d)
  unfolding save_tag validate_tag_data
  save_tag-Sets k t d =
      rw (B.tag-encode t)
        (put_object-Sets B env (tag_name (get_arn k) t.tag_key) (B.encode_tag t) d)

  pub Keeps-delete_object : (name : Text) → Keeps B env (delete_object B env name)
  Keeps-delete_object name =
      Preserves-Hoare (delete_object B env name) (delete_object-IsSound B IsConsistent env name)

  pub Keeps-load_key : (arn : Text) → Keeps B env (load_key B env arn)
  Keeps-load_key arn =
      Preserves-Hoare (load_key B env arn)
        (load_key-IsSound B IsConsistent env IsConsistent-renamed IsConsistent-reset arn)

  pub Keeps-written :
      (name : Text) (v : B.Value) (m : Db B Unit)
      → Harmless B v
      → ((d : B.Store) → Sets B d name (some v) (m d))
      → Keeps B env m
  Keeps-written name v m harmless sets = record {
    after = λ d h.
        Post-state (AllConsistent B env) (λ u. Unit {0}) (m d)
          (SetsKey-Post B IsConsistent d name (unmarshal_key B v) (m d) harmless h
            (SetsKey-of-Sets B d name (some v) (m d) (sets d)));
  }

  pub Keeps-load_alias : (arn : Text) → Keeps B env (load_alias B arn)
  Keeps-load_alias arn = Preserves-unchanged (load_alias B arn) (load_alias_same B arn)

  pub Keeps-load_grant : (id : Text) → Keeps B env (load_grant B id)
  unfolding load_grant
  Keeps-load_grant id = record { after = λ d h. ground arith }

  pub Keeps-find_grant : (token : Text) → Keeps B env (find_grant_by_token B token)
  unfolding find_grant_by_token
  Keeps-find_grant token = record { after = λ d h. h }

  pub Keeps-delete_grant : (id : Text) → Keeps B env (delete_grant B env id)
  unfolding delete_grant
  Keeps-delete_grant id = Keeps-delete_object (grant_storage_key id)

  pub Keeps-list_grants : (f : GrantFilter) (n : ℕ) (m : Marker) → Keeps B env (list_grants B f n m)
  unfolding list_grants
  Keeps-list_grants f n m = record { after = λ d h. h }

  pub Keeps-list_alias :
      (p : Text) (n : ℕ) (m : Marker) (key : Text) → Keeps B env (list_alias B p n m key)
  unfolding list_alias
  Keeps-list_alias p n m key = record { after = λ d h. h }

  pub Keeps-count_tags : (arn : Text) → Keeps B env (count_tags B arn)
  unfolding count_tags
  Keeps-count_tags arn = record { after = λ d h. h }

  pub Keeps-list_tags : (arn : Text) (n : ℕ) (m : Marker) → Keeps B env (list_tags B arn n m)
  unfolding list_tags
  Keeps-list_tags arn n m = record { after = λ d h. h }

  module _ (apart : Apart B) where
    pub Keeps-save_alias : (a : Alias) → Keeps B env (save_alias B env a)
    Keeps-save_alias a =
        Keeps-written a.alias_arn (B.encode_alias a) (save_alias B env a) (apart.aliases a)
          (save_alias-Sets B env a)

    pub Keeps-save_tag : (k : Key) (t : Tag) → Keeps B env (save_tag B env k t)
    Keeps-save_tag k t =
        Keeps-written (tag_name (get_arn k) t.tag_key) (B.encode_tag t) (save_tag B env k t)
          (apart.tags t) (save_tag-Sets k t)

    pub Keeps-save_grant : (g : Grant) → Keeps B env (save_grant B env g)
    Keeps-save_grant g =
        Keeps-written (grant_storage_key g.grant_id) (B.encode_grant g) (save_grant B env g)
          (apart.grants g) (save_grant-Sets B env g)

pub ruleset storing = (
  handling, Keeps-delete_object, Keeps-load_key, Keeps-load_alias, Keeps-load_grant,
  Keeps-find_grant, Keeps-delete_grant, Keeps-list_grants, Keeps-list_alias, Keeps-count_tags,
  Keeps-list_tags,
)
