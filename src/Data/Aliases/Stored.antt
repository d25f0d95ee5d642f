-- ===== src/Data/Aliases/Stored.antt =====
-- SaveAlias and LoadAlias of data/database_alias.go, one after the other.
use local_kms.Prelude.{◌≡◌, ◌≢◌, Text, text_eq_refl, text_eq_iff, some, arith}
use local_kms.Config.{Env}
use local_kms.Result.{ok, err}
use local_kms.Data.{Alias, not_found}
use local_kms.Data.Backend.{Backend}
use local_kms.Data.Database.{delete_object, validate_alias_data}
use local_kms.Data.Database.Writes.{Sets, put_object-Sets, delete_object-Sets}
use local_kms.Data.Aliases.{save_alias, load_alias}

module _ (B : Backend) where
  open B use {Store, get, encode_alias}

  pub save_alias-Sets :
      (env : Env) (a : Alias) (d : Store)
      → Sets B d a.alias_arn (some (encode_alias a)) (save_alias B env a d)
  unfolding save_alias validate_alias_data
  save_alias-Sets env a d =
      rw (B.alias-encode a) (put_object-Sets B env a.alias_arn (encode_alias a) d)

  -- After a save that returns no error, a load of the alias's ARN gives the alias, and any other
  -- load of an alias gives what it gave.
  pub load-save_alias :
      (env : Env) (a : Alias) (d d' : Store)
      → save_alias B env a d ≡ (ok tt, d')
      → (load_alias B a.alias_arn d' ≡ (ok a, d'))
        × ((j : Text) → a.alias_arn ≢ j → (load_alias B j d').0 ≡ (load_alias B j d).0)
  unfolding load_alias
  load-save_alias env a d d' h =
      let written = rw h at (save_alias-Sets env a d) in
      (
        ground (arith, written a.alias_arn, text_eq_refl a.alias_arn, B.alias-encode a),
        λ j ne. ground (arith, written j, text_eq_iff a.alias_arn j),
      )

  -- After a deletion that returns no error, the alias is not found.
  pub load_alias-delete_object :
      (env : Env) (arn : Text) (d d' : Store)
      → delete_object B env arn d ≡ (ok tt, d')
      → load_alias B arn d' ≡ (err not_found, d')
  unfolding load_alias
  load_alias-delete_object env arn d d' h =
      let written = rw h at (delete_object-Sets B env arn d) in
      ground (arith, written arn, text_eq_refl arn)
