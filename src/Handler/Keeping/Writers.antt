-- ===== src/Handler/Keeping/Writers.antt =====
-- The handlers that write aliases, tags and grants, those that list them, and the listing of keys, which
-- deletes those that are past their date.
use local_kms.Prelude.{ℕ, zero, suc, Bool, true, false, Text, Option, none, some, List, [], ◌∷◌, ℤ}
use local_kms.Config.{Env}
use local_kms.Exec.Preserves.{Preserves-if, Preserves-bind}
use local_kms.Cmk.{Key, get_arn}
use local_kms.Data.Database.{Db, delete_object, unmarshal_key, or_err}
use local_kms.Data.{Grant, corrupted}
use local_kms.Data.Backend.{Backend}
use local_kms.Data.Keys.{list_keys_from, list_keys}
use local_kms.Data.Listing.{Marker}
use local_kms.Handler.Keeping.Calls.{Keeps}
use local_kms.Handler.Keeping.Storage.{
  Apart, storing, Keeps-save_alias, Keeps-save_tag, Keeps-save_grant, Keeps-delete_object,
}
use local_kms.Handler.Tags
use local_kms.Handler.Tags.{TagInput, tag_of}
use local_kms.Data.Tags.{tag_name, save_tag}
use local_kms.Exec.{lift}
use local_kms.Handler.Responses.{expect, internal_failure}
use local_kms.Handler.Aliases
use local_kms.Handler.Grants
use local_kms.Handler.Grants.{CreateGrantInput}
use local_kms.Handler.Keys

module _ (B : Backend) (env : Env) where
  pub Keeps-delete_alias : (name : Option Text) → Keeps B env (Aliases.delete_alias B env name)
  unfolding Aliases.delete_alias
  Keeps-delete_alias name = search storing depth 20

  Keeps-key_filter : (id : Option Text) → Keeps B env (Aliases.key_filter B env id)
  unfolding Aliases.key_filter
  Keeps-key_filter none = search storing
  Keeps-key_filter (some id) = search storing

  pub Keeps-list_aliases :
      (id : Option Text) (n : Option ℤ) (m : Option Text)
      → Keeps B env (Aliases.list_aliases B env id n m)
  unfolding Aliases.list_aliases
  Keeps-list_aliases id n m = search (storing, Keeps-key_filter) depth 20

  Keeps-delete_tags : (k : Key) (names : List Text) → Keeps B env (Tags.delete_tags B env k names)
  unfolding Tags.delete_tags
  Keeps-delete_tags k [] = search storing
  Keeps-delete_tags k (n ∷ names) =
      Preserves-bind (expect internal_failure (delete_object B env (tag_name (get_arn k) n))) _
        (search storing) (λ u. Keeps-delete_tags k names)

  pub Keeps-untag_resource :
      (id : Option Text) (names : Option (List Text))
      → Keeps B env (Tags.untag_resource B env id names)
  unfolding Tags.untag_resource
  Keeps-untag_resource id names = search (storing, Keeps-delete_tags) depth 20

  pub Keeps-list_resource_tags :
      (id : Option Text) (n : Option ℤ) (m : Option Text)
      → Keeps B env (Tags.list_resource_tags B env id n m)
  unfolding Tags.list_resource_tags
  Keeps-list_resource_tags id n m = search storing depth 20

  Keeps-check_quota : (k : Key) (ts : List TagInput) → Keeps B env (Tags.check_quota B env k ts)
  unfolding Tags.check_quota
  Keeps-check_quota k [] = search storing
  Keeps-check_quota k (t ∷ ts) = search storing depth 20

  Keeps-grant_of : (k : Key) (id : Text) → Keeps B env (Grants.grant_of B env k id)
  Keeps-grant_of k id = search storing depth 20

  pub Keeps-revoke_grant :
      (id grant_id : Option Text) → Keeps B env (Grants.revoke_grant B env id grant_id)
  unfolding Grants.revoke_grant
  Keeps-revoke_grant id grant_id = search storing depth 20

  Keeps-check_key : (id : Option Text) (g : Grant) → Keeps B env (Grants.check_key B env id g)
  unfolding Grants.check_key
  Keeps-check_key none g = search storing
  Keeps-check_key (some []) g = search storing
  Keeps-check_key (some (c ∷ cs)) g = search storing

  Keeps-retire_by_token :
      (token : Text) (id grant_id : Option Text)
      → Keeps B env (Grants.retire_by_token B env token id grant_id)
  unfolding Grants.retire_by_token
  Keeps-retire_by_token token id grant_id = search (storing, Keeps-check_key) depth 20

  Keeps-retire_by_id : (id grant_id : Text) → Keeps B env (Grants.retire_by_id B env id grant_id)
  unfolding Grants.retire_by_id
  Keeps-retire_by_id id grant_id = search storing depth 20

  pub Keeps-retire_grant :
      (token id grant_id : Option Text) → Keeps B env (Grants.retire_grant B env token id grant_id)
  unfolding Grants.retire_grant
  Keeps-retire_grant token id grant_id = search (storing, Keeps-retire_by_token, Keeps-retire_by_id)

  pub Keeps-list_key_grants :
      (id g p s : Option Text) (n : Option ℤ) (m : Option Text)
      → Keeps B env (Grants.list_key_grants B env id g p s n m)
  unfolding Grants.list_key_grants
  Keeps-list_key_grants id g p s n m = search storing depth 20

  pub Keeps-list_retirable_grants :
      (p s : Option Text) (n : Option ℤ) (m : Option Text)
      → Keeps B env (Grants.list_retirable_grants B env p s n m)
  unfolding Grants.list_retirable_grants
  Keeps-list_retirable_grants p s n m = search storing depth 20

  -- The keys that are past their date are deleted on the way.
  Keeps-after_deletion :
      {A : Type 0} (arn : Text) (m : Db B A)
      → Keeps B env m
      → Keeps B env (λ d. m (delete_object B env arn d).1)
  Keeps-after_deletion arn m h = record {
    after = λ d p. h.after _ ((Keeps-delete_object B env arn).after d p);
  }

  Keeps-list_keys_from :
      (m : Marker) (n : ℕ) (past : Bool) (es : List (Text × B.Value))
      → Keeps B env (list_keys_from B env m n past es)
  unfolding list_keys_from
  Keeps-list_keys_from m n past [] = search storing
  Keeps-list_keys_from m zero past (e ∷ es) = search storing
  Keeps-list_keys_from m (suc n) past ((name, v) ∷ es) =
      let skip = Keeps-list_keys_from m (suc n) past es in
      let next = Keeps-list_keys_from m (suc n) true es in
      let more = Keeps-list_keys_from m n true es in
      Preserves-if _ _ _ skip (
        Preserves-if _ _ _ skip (
          Preserves-bind (lift (or_err B (unmarshal_key B v) corrupted)) _ (search storing) λ k.
            Preserves-if _ _ _ (Keeps-after_deletion (get_arn k) _ next)
              (Preserves-bind _ _ more (search storing))))

  Keeps-list_keys : (p : Text) (n : ℕ) (m : Marker) → Keeps B env (list_keys B env p n m)
  unfolding list_keys
  Keeps-list_keys p n m = record {
    after = λ d h.
        (Preserves-bind _ _ (Keeps-list_keys_from m n false (B.iterate d p)) (search storing)).after
          d h;
  }

  pub Keeps-list_all_keys :
      (n : Option ℤ) (m : Option Text) → Keeps B env (Keys.list_all_keys B env n m)
  unfolding Keys.list_all_keys
  Keeps-list_all_keys n m = search (storing, Keeps-list_keys) depth 20

  module _ (apart : Apart B) where
    pub Keeps-create_alias :
        (target name : Option Text) → Keeps B env (Aliases.create_alias B env target name)
    unfolding Aliases.create_alias
    Keeps-create_alias target name = search (storing, Keeps-save_alias B env apart) depth 30

    pub Keeps-update_alias :
        (target name : Option Text) → Keeps B env (Aliases.update_alias B env target name)
    unfolding Aliases.update_alias
    Keeps-update_alias target name = search (storing, Keeps-save_alias B env apart) depth 30

    pub Keeps-save_tags : (k : Key) (ts : List TagInput) → Keeps B env (Tags.save_tags B env k ts)
    unfolding Tags.save_tags
    Keeps-save_tags k [] = search storing
    Keeps-save_tags k (t ∷ ts) = Preserves-bind (lift (tag_of t)) _ (search storing) λ tag.
        Preserves-bind (expect internal_failure (save_tag B env k tag)) _
          (search (storing, Keeps-save_tag B env apart)) λ u. Keeps-save_tags k ts

    pub Keeps-tag_resource :
        (id : Option Text) (ts : Option (List TagInput))
        → Keeps B env (Tags.tag_resource B env id ts)
    unfolding Tags.tag_resource
    Keeps-tag_resource id ts = search (storing, Keeps-check_quota, Keeps-save_tags) depth 20

    pub Keeps-create_grant :
        (encode : Text → Text) (body : CreateGrantInput)
        → Keeps B env (Grants.create_grant B env encode body)
    unfolding Grants.create_grant
    Keeps-create_grant encode body = search (storing, Keeps-save_grant B env apart) depth 30
