-- ===== src/Handler/Session/Invariant.antt =====
-- The consistency of stored keys over sequences of requests.
use local_kms.Prelude.{List, [], ◌∷◌}
use local_kms.Config.{Env}
use local_kms.Exec.{Exec}
use local_kms.Exec.Preserves.{Preserves-Hoare, preserving}
use local_kms.Exec.Hoare.{Hoare}
use local_kms.Data.Backend.{Backend}
use local_kms.Data.Keys.Sound.{IsSound}
use local_kms.Handler.Responses.{Exception}
use local_kms.Handler.Consistency.{IsConsistent, AllConsistent}
use local_kms.Handler.KeyState.Invariant.{
  enable_key-AllConsistent, disable_key-AllConsistent, schedule_key_deletion-AllConsistent,
  cancel_key_deletion-AllConsistent,
}
use local_kms.Handler.Rotation.Invariant.{
  enable_key_rotation-AllConsistent, disable_key_rotation-AllConsistent,
  rotate_key_on_demand-AllConsistent,
}
use local_kms.Handler.Import.Invariant.{
  get_parameters_for_import-AllConsistent, import_key_material-AllConsistent,
  delete_imported_key_material-AllConsistent,
}
use local_kms.Handler.Keys.Invariant.{
  create_key-AllConsistent, update_key_description-AllConsistent, put_key_policy-AllConsistent,
}
use local_kms.Handler.Session.{Libraries, Request, done, handle, serve}
use local_kms.Handler.Operations.{Operation}
use local_kms.Handler.Keeping.Storage.{Apart}
use local_kms.Handler.Keeping.Calls.{Keeps}
use local_kms.Handler.Keeping.Readers.{
  Keeps-get_key_rotation_status, Keeps-describe_key, Keeps-get_key_policy, Keeps-encrypt,
  Keeps-decrypt, Keeps-re_encrypt, Keeps-generate_data_key,
  Keeps-generate_data_key_without_plaintext, Keeps-generate_data_key_pair,
  Keeps-generate_data_key_pair_without_plaintext, Keeps-generate_random, Keeps-generate_mac,
  Keeps-verify_mac, Keeps-sign, Keeps-verify, Keeps-get_public_key,
}
use local_kms.Handler.Keeping.Writers.{
  Keeps-list_all_keys, Keeps-create_alias, Keeps-update_alias, Keeps-delete_alias,
  Keeps-list_aliases, Keeps-tag_resource, Keeps-untag_resource, Keeps-list_resource_tags,
  Keeps-create_grant, Keeps-retire_grant, Keeps-revoke_grant, Keeps-list_key_grants,
  Keeps-list_retirable_grants,
}

module _ (B : Backend) (l : Libraries) (apart : Apart B) where
  module _ (env : Env) where
    done-Keeps :
        {A : Type 0} (m : Exec B.Store Exception A) → Keeps B env m → Keeps B env (done B l m)
    done-Keeps m h = search preserving

    done-AllConsistent :
        {A : Type 0} {Q : A → Type 0} (m : Exec B.Store Exception A)
        → Hoare (AllConsistent B env) Q m
        → Keeps B env (done B l m)
    done-AllConsistent m h = done-Keeps m (Preserves-Hoare m h)

    pub handle-Keeps :
        {operation : Operation} (r : Request operation) → Keeps B env (handle B l env r)
    unfolding handle
    handle-Keeps (Request.enable_key id) = done-AllConsistent _ (enable_key-AllConsistent B env id)
    handle-Keeps (Request.disable_key id) =
        done-AllConsistent _ (disable_key-AllConsistent B env id)
    handle-Keeps (Request.cancel_key_deletion id) =
        done-AllConsistent _ (cancel_key_deletion-AllConsistent B env id)
    handle-Keeps (Request.schedule_key_deletion id days) =
        done-AllConsistent _ (schedule_key_deletion-AllConsistent B env id days)
    handle-Keeps (Request.enable_key_rotation id) =
        Preserves-Hoare _ (enable_key_rotation-AllConsistent B env id)
    handle-Keeps (Request.disable_key_rotation id) =
        Preserves-Hoare _ (disable_key_rotation-AllConsistent B env id)
    handle-Keeps (Request.rotate_key_on_demand id) =
        done-AllConsistent _ (rotate_key_on_demand-AllConsistent B env id)
    handle-Keeps (Request.get_key_rotation_status id) =
        done-Keeps _ (Keeps-get_key_rotation_status B env id)
    handle-Keeps (Request.get_parameters_for_import id algorithm spec) =
        done-AllConsistent _
          (get_parameters_for_import-AllConsistent B env l.wrapping id algorithm spec)
    handle-Keeps (Request.import_key_material id token material model valid_to) =
        done-AllConsistent _
          (import_key_material-AllConsistent B env l.wrapping id token material model valid_to)
    handle-Keeps (Request.delete_imported_key_material id) =
        done-AllConsistent _ (delete_imported_key_material-AllConsistent B env id)
    handle-Keeps (Request.create_key body) =
        done-AllConsistent _
          (create_key-AllConsistent B env apart l.generators l.default_policy body)
    handle-Keeps (Request.describe_key id) = done-Keeps _ (Keeps-describe_key B env id)
    handle-Keeps (Request.update_key_description id d) =
        Preserves-Hoare _ (update_key_description-AllConsistent B env id d)
    handle-Keeps (Request.get_key_policy id) = done-Keeps _ (Keeps-get_key_policy B env id)
    handle-Keeps (Request.put_key_policy id policy name) =
        Preserves-Hoare _ (put_key_policy-AllConsistent B env id policy name)
    handle-Keeps (Request.list_keys n marker) = done-Keeps _ (Keeps-list_all_keys B env n marker)
    handle-Keeps (Request.create_alias target name) = Keeps-create_alias B env apart target name
    handle-Keeps (Request.update_alias target name) = Keeps-update_alias B env apart target name
    handle-Keeps (Request.delete_alias name) = Keeps-delete_alias B env name
    handle-Keeps (Request.list_aliases id n marker) =
        done-Keeps _ (Keeps-list_aliases B env id n marker)
    handle-Keeps (Request.tag_resource id tags) = Keeps-tag_resource B env apart id tags
    handle-Keeps (Request.untag_resource id names) = Keeps-untag_resource B env id names
    handle-Keeps (Request.list_resource_tags id n marker) =
        done-Keeps _ (Keeps-list_resource_tags B env id n marker)
    handle-Keeps (Request.create_grant body) =
        done-Keeps _ (Keeps-create_grant B env apart l.base64 body)
    handle-Keeps (Request.retire_grant token id grant_id) =
        Keeps-retire_grant B env token id grant_id
    handle-Keeps (Request.revoke_grant id grant_id) = Keeps-revoke_grant B env id grant_id
    handle-Keeps (Request.list_grants id grant_id grantee service n marker) =
        done-Keeps _ (Keeps-list_key_grants B env id grant_id grantee service n marker)
    handle-Keeps (Request.list_retirable_grants principal service n marker) =
        done-Keeps _ (Keeps-list_retirable_grants B env principal service n marker)
    handle-Keeps (Request.encrypt id plaintext context algorithm) =
        done-Keeps _ (Keeps-encrypt B env l.aead l.oaep id plaintext context algorithm)
    handle-Keeps (Request.decrypt id blob context algorithm) =
        done-Keeps _ (Keeps-decrypt B env l.aead l.oaep id blob context algorithm)
    handle-Keeps (Request.re_encrypt from to blob c d a b) =
        done-Keeps _ (Keeps-re_encrypt B env l.aead l.oaep from to blob c d a b)
    handle-Keeps (Request.generate_data_key id spec n context) =
        done-Keeps _ (Keeps-generate_data_key B env l.aead id spec n context)
    handle-Keeps (Request.generate_data_key_without_plaintext id spec n context) =
        done-Keeps _ (Keeps-generate_data_key_without_plaintext B env l.aead id spec n context)
    handle-Keeps (Request.generate_data_key_pair id spec context) =
        done-Keeps _
          (Keeps-generate_data_key_pair B env l.aead l.generators l.encodings id spec context)
    handle-Keeps (Request.generate_data_key_pair_without_plaintext id spec context) = done-Keeps _ (
        Keeps-generate_data_key_pair_without_plaintext B env l.aead l.generators l.encodings id spec
          context)
    handle-Keeps (Request.generate_random n) = done-Keeps _ (Keeps-generate_random B env n)
    handle-Keeps (Request.generate_mac id message algorithm) =
        done-Keeps _ (Keeps-generate_mac B env l.keyed_hash id message algorithm)
    handle-Keeps (Request.verify_mac id message code algorithm) =
        done-Keeps _ (Keeps-verify_mac B env l.keyed_hash id message code algorithm)
    handle-Keeps (Request.sign id message kind algorithm) =
        done-Keeps _ (Keeps-sign B env l.crypto id message kind algorithm)
    handle-Keeps (Request.verify id signature message kind algorithm) =
        done-Keeps _ (Keeps-verify B env l.crypto id signature message kind algorithm)
    handle-Keeps (Request.get_public_key id) =
        done-Keeps _ (Keeps-get_public_key B env l.encodings id)

  -- From a store whose keys are all consistent, whatever requests are handled, of any of the operations,
  -- at whatever times and with whatever failures of the disk, all keys are consistent: one is enabled
  -- exactly in the state Enabled, and one that is pending deletion has a deletion date. What can be read
  -- as a key of the text of an alias, a tag or a grant, if anything, is taken to be consistent.
  pub serve-AllConsistent :
      (rs : List (Env × (operation : Operation) × Request operation)) (d : B.Store)
      → IsSound B IsConsistent d
      → IsSound B IsConsistent (serve B l rs d)
  unfolding serve
  serve-AllConsistent [] d h = h
  serve-AllConsistent ((env, operation, r) ∷ rs) d h =
      serve-AllConsistent rs (handle B l env r d).1 ((handle-Keeps env r).after d h)
