-- ===== src/Tests/Creations.antt =====
-- Keys, aliases, tags and grants that requests make or remove in memory.
use local_kms.Prelude.{
  ◌≡◌, refl, true, Text, codes, [], ◌∷◌, ◌++◌, none, some, text_eq, contains, has_prefix,
}
use local_kms.Result.{ok, err}
use local_kms.Config.{arn_prefix, ensure_arn}
use local_kms.Clock.{unix, add_year}
use local_kms.Cmk.{
  Key, KeySpec, KeyUsage, KeyOrigin, AesKey, aes, get_metadata, is_pending_deletion, initialize,
}
use local_kms.Cmk.Aes.{rotate_if_needed, generate_key, new_aes_key}
use local_kms.Data.{Alias, Grant, not_found}
use local_kms.Data.DiskSpace.{check_disk_space}
use local_kms.Data.Database.{
  put_object, delete_object, validate_key_data, validate_alias_data, validate_tag_data,
  unmarshal_key,
}
use local_kms.Data.Keys.{save_key, read_key, load_key, rotate, migrate, settle, expire, is_expired}
use local_kms.Data.Aliases.{load_alias, save_alias}
use local_kms.Data.Grants.{
  delete_grant, load_grant, find_grant_by_token, find_in, grant_storage_key, grant_prefix,
}
use local_kms.Data.Grants.Stored.{At}
use local_kms.Data.Tags.{save_tag, tag_name}
use local_kms.Handler.Lookup.{find_key}
use local_kms.Handler.Aliases.{create_alias, valid_alias_name, alias_char}
use local_kms.Handler.Aliases.Resolution.{create_alias-get_key}
use local_kms.Handler.Grants.{retire_by_token}
use local_kms.Handler.Grants.Retiring.{retire_by_token_lem}
use local_kms.Handler.Tags.{TagInput, validate_tags, save_tags, tag_of}
use local_kms.Handler.Tags.Validation.{AllProper, validate_tags-AllProper}
use local_kms.Handler.Keys.{CreateKeyInput, create_key, resolve_spec, apply_origin, make_key}
use local_kms.Handler.Keys.Creation.{read_key-create_key}
use local_kms.Tests.Memory.{memory, Store, key, alias, grant, tag}
use local_kms.Tests.Samples.{
  no_generators, empty_policy, env, grant_g1, aes_key, metadata, store, replicate,
}
use local_kms.Handler.Aliases.{update_alias, delete_alias}
use local_kms.Handler.Aliases.Reserved.{update_alias-create_alias}
use local_kms.Handler.Responses.{not_authorized}
use local_kms.Data.Database.{delete_object}
use local_kms.Result.{err}
use local_kms.Tests.Keys.{rotated_store}

abbrev new_arn : Text
new_arn = codes "arn:aws:kms:eu-west-2:111122223333:alias/new"

abbrev new_alias : Alias
new_alias = record {
  alias_arn = new_arn;
  alias_name = codes "alias/new";
  target_key_id = codes "k1";
  creation_date = 1700000000000000000;
  last_updated_date = 1700000000000000000;
}

abbrev with_new : Store
with_new = (new_arn, alias new_alias) ∷ rotated_store

alias_made :
    create_alias memory env (some (codes "k1")) (some (codes "alias/new")) store ≡ (ok tt, with_new)
unfolding create_alias valid_alias_name alias_char find_key ensure_arn arn_prefix contains
    has_prefix load_key save_key validate_key_data put_object check_disk_space unmarshal_key text_eq
    read_key rotate rotate_if_needed migrate settle expire is_expired is_pending_deletion unix
    add_year load_alias save_alias validate_alias_data
alias_made = refl

abbrev aws_arn : Text
aws_arn = codes "arn:aws:kms:eu-west-2:111122223333:alias/awsome"

abbrev aws_alias : Alias
aws_alias = record new_alias { alias_arn = aws_arn; alias_name = codes "alias/awsome" }

abbrev with_aws : Store
with_aws = (aws_arn, alias aws_alias) ∷ rotated_store

aws_alias_made :
    create_alias memory env (some (codes "k1")) (some (codes "alias/awsome")) store
    ≡ (ok tt, with_aws)
unfolding create_alias valid_alias_name alias_char find_key ensure_arn arn_prefix contains
    has_prefix load_key save_key validate_key_data put_object check_disk_space unmarshal_key text_eq
    read_key rotate rotate_if_needed migrate settle expire is_expired is_pending_deletion unix
    add_year load_alias save_alias validate_alias_data
aws_alias_made = refl

aws_like : has_prefix (codes "alias/aws") (codes "alias/awsome") ≡ true
unfolding has_prefix
aws_like = refl

aws_alias_deleted :
    delete_object memory env (arn_prefix env ++ codes "alias/awsome") with_aws
    ≡ (ok tt, rotated_store)
unfolding delete_object check_disk_space text_eq arn_prefix
aws_alias_deleted = refl

update_alias-create_alias_example :
    (update_alias memory env (some (codes "k2")) (some (codes "alias/awsome")) with_aws
      ≡ (err not_authorized, with_aws))
    × (delete_alias memory env (some (codes "alias/awsome")) with_aws ≡ (ok tt, rotated_store))
    × (load_alias memory (arn_prefix env ++ codes "alias/awsome") rotated_store
        ≡ (err not_found, rotated_store))
update_alias-create_alias_example =
    update_alias-create_alias memory env (codes "k1") (codes "k2") (codes "alias/awsome") store
      with_aws rotated_store with_aws aws_like aws_alias_made aws_alias_deleted

create_alias-get_key_example :
    (k : Key) × (t : Store) × (find_key memory env (codes "k1") store ≡ (ok k, t))
    × ((get_metadata k).deletion_date ≡ 0)
    × (valid_alias_name (codes "alias/new") ≡ true)
    × (a : Alias) × (load_alias memory (arn_prefix env ++ codes "alias/new") with_new
        ≡ (ok a, with_new))
    × (a.target_key_id ≡ (get_metadata k).key_id)
create_alias-get_key_example =
    create_alias-get_key memory env (codes "k1") (codes "alias/new") store with_new alias_made

abbrev with_grant : Store
with_grant = (codes "grant/g1", grant grant_g1) ∷ rotated_store

retired : retire_by_token memory env (codes "t1") none none with_grant ≡ (ok tt, rotated_store)
unfolding retire_by_token find_grant_by_token find_in delete_grant delete_object check_disk_space
    grant_storage_key text_eq has_prefix
retired = refl

retire_by_token_lem_example :
    (g : Grant) × At memory (codes "t1") g (memory.iterate with_grant grant_prefix)
    × (load_grant memory g.grant_id rotated_store ≡ (err not_found, rotated_store))
retire_by_token_lem_example =
    retire_by_token_lem memory env (codes "t1") none none with_grant rotated_store retired

abbrev owner : TagInput
owner = record { tag_key = some (codes "owner"); tag_value = some (codes "me") }

valid_tags : validate_tags (owner ∷ []) ≡ none
unfolding validate_tags has_prefix
valid_tags = refl

validate_tags-AllProper_example : AllProper (owner ∷ [])
validate_tags-AllProper_example = validate_tags-AllProper (owner ∷ []) valid_tags

abbrev wanted : CreateKeyInput
wanted = record {
  description = none;
  policy = none;
  tags = owner ∷ [];
  key_spec = KeySpec.unset;
  customer_master_key_spec = KeySpec.unset;
  key_usage = KeyUsage.unset;
  origin = KeyOrigin.unset;
}

abbrev new_key_arn : Text
new_key_arn = codes "arn:aws:kms:eu-west-2:111122223333:key/k9"

abbrev new_key : AesKey
new_key = record aes_key {
  metadata = record metadata {
    arn = new_key_arn;
    key_id = codes "k9";
    creation_date = 1700000000000000000;
  };
  backing_keys = replicate 32 0 ∷ [];
  next_key_rotation = none;
  on_demand_rotation_count = 0;
}

abbrev with_key : Store
with_key =
    (
      new_key_arn ++ codes "/tag/owner",
      tag (record { tag_key = codes "owner"; tag_value = codes "me" }),
    )
    ∷ (new_key_arn, key (aes new_key))
    ∷ store

created :
    create_key memory env no_generators empty_policy wanted store ≡ (ok (aes new_key), with_key)
unfolding create_key resolve_spec apply_origin make_key new_aes_key generate_key initialize
    arn_prefix validate_tags has_prefix save_tags tag_of save_tag tag_name validate_tag_data
    save_key validate_key_data put_object check_disk_space unmarshal_key text_eq
created = refl

read_key-create_key_example : read_key memory new_key_arn with_key ≡ (ok (aes new_key), with_key)
read_key-create_key_example =
    read_key-create_key memory env no_generators empty_policy wanted store with_key (aes new_key)
      created
