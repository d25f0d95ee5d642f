-- ===== src/Handler/Grants/Retiring.antt =====
-- What handler/retire_grant.go does to the store when it is given a token.
use local_kms.Prelude.{◌≡◌, Text, text_eq_refl, Option, arith}
use local_kms.Config.{Env}
use local_kms.Result.{ok, err}
use local_kms.Exec.{bind-ok, steps, guard-ok, passes}
use local_kms.Data.{Grant, not_found}
use local_kms.Data.Backend.{Backend}
use local_kms.Data.Database.{delete_object}
use local_kms.Data.Database.Writes.{delete_object-Sets}
use local_kms.Data.Grants.{
  grant_storage_key, delete_grant, load_grant, find_grant_by_token, grant_prefix,
}
use local_kms.Data.Grants.Stored.{find_in-At, At}
use local_kms.Handler.Responses.{expect, require, Exception, internal_failure}
use local_kms.Handler.Grants.{retire_by_token, check_key, other_than}

module _ (B : Backend) (env : Env) where
  -- After a deletion that returns no error, the grant is not found.
  gone :
      (grant_id : Text) (d d' : B.Store)
      → expect internal_failure (delete_grant B env grant_id) d ≡ (ok tt, d')
      → load_grant B grant_id d' ≡ (err not_found, d')
  unfolding load_grant delete_grant
  gone grant_id d d' h =
      let name = grant_storage_key grant_id in
      let done : delete_object B env name d ≡ (ok tt, d') = ground arith in
      let deleted = rw done at (delete_object-Sets B env name d) in
      ground (arith, deleted name, text_eq_refl name)

  -- A grant that was retired by its token was the first in the store with the token, and afterwards it
  -- is not found.
  pub retire_by_token_lem :
      (token : Text) (key_id grant_id : Option Text) (d d' : B.Store)
      → retire_by_token B env token key_id grant_id d ≡ (ok tt, d')
      → (g : Grant) × At B token g (B.iterate d grant_prefix)
        × (load_grant B g.grant_id d' ≡ (err not_found, d'))
  unfolding retire_by_token find_grant_by_token
  retire_by_token_lem token key_id grant_id d d' h =
      elim (bind-ok _ (expect internal_failure (find_grant_by_token B token)) d h) [
        | steps found t looked h₁ ↦ elim (bind-ok _ (require found Exception.not_found) t h₁) [
          | steps g u given h₂ ↦
              elim (guard-ok _ (other_than grant_id g.grant_id) Exception.not_found u h₂) [
                | passes same h₃ ↦ elim (bind-ok _ (check_key B env key_id g) u h₃) [
                  | steps o v checked deleted ↦ (
                    g,
                    find_in-At B token (B.iterator_error d grant_prefix) (B.iterate d grant_prefix)
                        g (ground (arith, looked, given)),
                    gone g.grant_id v d' deleted,
                  )
                ]
              ]
        ]
      ]
