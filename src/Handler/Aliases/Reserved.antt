-- ===== src/Handler/Aliases/Reserved.antt =====
-- The names that begin with alias/aws, in handler/create_alias.go, update_alias.go and delete_alias.go.
use local_kms.Prelude.{◌≡◌, not, true, false, Text, codes, has_prefix, ◌++◌, some, arith}
use local_kms.Config.{Env, arn_prefix}
use local_kms.Result.{ok, err}
use local_kms.Exec.{guard-ok, passes}
use local_kms.Data.Backend.{Backend}
use local_kms.Data.{not_found}
use local_kms.Data.Database.{delete_object}
use local_kms.Data.Aliases.{load_alias}
use local_kms.Data.Aliases.Stored.{load_alias-delete_object}
use local_kms.Handler.Responses.{not_authorized, invalid_alias_name}
use local_kms.Handler.Aliases.{
  alias_namespace, valid_alias_name, create_alias, update_alias, delete_alias,
}
use local_kms.Handler.Aliases.Resolution.{create_alias-get_key}

in_namespace : (name : Text) → valid_alias_name name ≡ true → has_prefix alias_namespace name ≡ true
unfolding valid_alias_name
in_namespace name h = ground arith

module _ (B : Backend) (env : Env) where
  created_free :
      (target name : Text) (d d' : B.Store)
      → create_alias B env (some target) (some name) d ≡ (ok tt, d')
      → has_prefix (codes "alias/aws/") name ≡ false
  unfolding create_alias
  created_free target name d d' h =
      elim (guard-ok _ (not (valid_alias_name name)) invalid_alias_name d h) [
        | passes valid h₁ ↦
            elim (guard-ok _ (has_prefix (codes "alias/aws/") name) not_authorized d h₁) [
              | passes free h₂ ↦ free
            ]
      ]

  update_alias_refuses :
      (target name : Text) (d : B.Store)
      → has_prefix (codes "alias/aws") name ≡ true
      → has_prefix alias_namespace name ≡ true
      → update_alias B env (some target) (some name) d ≡ (err not_authorized, d)
  unfolding update_alias
  update_alias_refuses target name d h v = ground arith

  -- An alias that CreateAlias made under a name that begins with alias/aws cannot be moved: UpdateAlias
  -- answers NotAuthorizedException for every target and on every store. It can be deleted: if the store
  -- deletes its entry, DeleteAlias answers without an error, and the alias is not found any more.
  pub update_alias-create_alias :
      (target target' name : Text) (d d' d'' t : B.Store)
      → has_prefix (codes "alias/aws") name ≡ true
      → create_alias B env (some target) (some name) d ≡ (ok tt, d')
      → delete_object B env (arn_prefix env ++ name) d' ≡ (ok tt, d'')
      → (update_alias B env (some target') (some name) t ≡ (err not_authorized, t))
        × (delete_alias B env (some name) d' ≡ (ok tt, d''))
        × (load_alias B (arn_prefix env ++ name) d'' ≡ (err not_found, d''))
  unfolding delete_alias
  update_alias-create_alias target target' name d d' d'' t like h gone =
      let (key, u, found, kept, valid, a, there, target_is) =
        create_alias-get_key B env target name d d' h in
      let inside = in_namespace name valid in
      (
        update_alias_refuses target' name t like inside,
        ground (arith, there, inside, created_free target name d d' h, gone),
        load_alias-delete_object B env (arn_prefix env ++ name) d' d'' gone,
      )
