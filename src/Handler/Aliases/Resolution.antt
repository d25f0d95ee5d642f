-- ===== src/Handler/Aliases/Resolution.antt =====
-- What an alias of handler/create_alias.go stands for.
use local_kms.Prelude.{
  ◌≡◌, refl, ◌==◌, ◌*◌, ==_iff, not, ltb, true, Text, codes, has_prefix, contains, length, ◌++◌,
  some, [], arith,
}
use local_kms.Config.{Env, arn_prefix, ensure_arn}
use local_kms.Result.{ok}
use local_kms.Exec.{Exec, bind-ok, steps, guard-ok, passes}
use local_kms.Cmk.{Key, get_metadata}
use local_kms.Clock.{second, unix}
use local_kms.Data.{Alias, DataError}
use local_kms.Data.Backend.{Backend}
use local_kms.Data.Aliases.{save_alias, load_alias}
use local_kms.Data.Aliases.Stored.{load-save_alias}
use local_kms.Handler.Responses.{
  Exception, expect, attempt, not_authorized, internal_failure, invalid_alias_name, validation,
  kms_invalid_state, already_exists,
}
use local_kms.Handler.Lookup.{find_key, get_key}
use local_kms.Handler.Aliases.{alias_namespace, valid_alias_name, is_some, create_alias}

module _ (B : Backend) (env : Env) where
  -- A key that is named by an alias is looked up as the alias's target.
  pub get_key-load_alias :
      (id : Text) (a : Alias) (d : B.Store)
      → contains (codes "alias/") id ≡ true
      → load_alias B (ensure_arn env [] id) d ≡ (ok a, d)
      → get_key B env id d ≡ find_key B env a.target_key_id d
  unfolding get_key
  get_key-load_alias id a d named e = ground arith

  expect-ok :
      {A : Type 0} (x : Exception) (m : Exec B.Store DataError A) (d d' : B.Store) (a : A)
      → expect x m d ≡ (ok a, d')
      → m d ≡ (ok a, d')
  expect-ok x m d d' a h = ground arith

  -- The alias that is saved.
  abbrev alias_of : Text → Key → Alias
  alias_of name key = record {
    alias_arn = arn_prefix env ++ name;
    alias_name = name;
    target_key_id = (get_metadata key).key_id;
    creation_date = unix env.now * second;
    last_updated_date = unix env.now * second;
  }

  -- An alias that was made names the key that was its target then, and may be asked for by its ARN.
  pub create_alias-get_key :
      (target name : Text) (d d' : B.Store)
      → create_alias B env (some target) (some name) d ≡ (ok tt, d')
      → (key : Key) × (t : B.Store) × (find_key B env target d ≡ (ok key, t))
        × ((get_metadata key).deletion_date ≡ 0)
        × (valid_alias_name name ≡ true)
        × (a : Alias) × (load_alias B (arn_prefix env ++ name) d' ≡ (ok a, d'))
        × (a.target_key_id ≡ (get_metadata key).key_id)
  unfolding create_alias
  create_alias-get_key target name d d' h =
      elim (guard-ok _ (not (valid_alias_name name)) invalid_alias_name d h) [
        | passes valid h₁ ↦
            elim (guard-ok _ (has_prefix (codes "alias/aws/") name) not_authorized d h₁) [
              | passes free h₂ ↦ elim (guard-ok _ (ltb 256 (length name)) validation d h₂) [
                | passes short h₃ ↦
                    elim (guard-ok _ (has_prefix alias_namespace target) validation d h₃) [
                      | passes plain h₄ ↦ elim (bind-ok _ (find_key B env target) d h₄) [
                        | steps key t found h₅ ↦
                            elim (guard-ok _ (not ((get_metadata key).deletion_date == 0))
                              kms_invalid_state t h₅) [
                                | passes kept h₆ ↦
                                    elim (bind-ok _
                                      (attempt (load_alias B (arn_prefix env ++ name))) t h₆) [
                                        | steps old u tried h₇ ↦
                                            elim (guard-ok _ (is_some old) already_exists u h₇) [
                                              | passes new saved ↦
                                                  let a = alias_of name key in
                                                  (
                                                    key,
                                                    t,
                                                    found,
                                                    ground (
                                                      arith,
                                                      ==_iff (get_metadata key).deletion_date 0,
                                                    ),
                                                    ground arith,
                                                    a,
                                                    (load-save_alias B env a u d' (
                                                        expect-ok internal_failure
                                                          (save_alias B env a) u d' tt saved)).0,
                                                    refl,
                                                  )
                                            ]
                                      ]
                              ]
                      ]
                    ]
              ]
            ]
      ]
