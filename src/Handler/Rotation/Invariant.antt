-- ===== src/Handler/Rotation/Invariant.antt =====
-- Consistency under handler/enable_key_rotation.go, disable_key_rotation.go and
-- rotate_key_on_demand.go.
use local_kms.Prelude.{◌≡◌, ◌==◌, not, Text, Option, none, some, arith}
use local_kms.Config.{Env}
use local_kms.Result.{ok}
use local_kms.Exec.{pure, lift}
use local_kms.Exec.Hoare.{Hoare, Hoare-pure, Hoare-bind}
use local_kms.Cmk.{Key, AesKey, aes, get_metadata, get_arn, is_external}
use local_kms.Cmk.Aes.{rotate_on_demand}
use local_kms.Data.Backend.{Backend}
use local_kms.Handler.Responses.{
  require, missing_parameter, unsupported_operation, kms_invalid_state, disabled,
}
use local_kms.Handler.Lookup.{find_key, get_key}
use local_kms.Handler.Rules.{Hoare-guard, Hoare-given, Hoare-require, Hoare-lift}
use local_kms.Handler.Consistency.{
  IsConsistent, AllConsistent, Returned, find-AllConsistent, get-AllConsistent,
  expect-AllConsistent, saved-AllConsistent,
}
use local_kms.Handler.Rotation.{
  as_aes, next_rotation, or_limit, rotatable, enable_key_rotation, disable_key_rotation,
  rotate_key_on_demand,
}

as_aes-IsConsistent :
    (key : Key) (k : AesKey)
    → IsConsistent (get_metadata key)
    → as_aes key ≡ some k
    → IsConsistent k.metadata
as_aes-IsConsistent key k c e = ground arith

metadata-rotate_on_demand :
    (env : Env) (k k' : AesKey)
    → or_limit (rotate_on_demand env k) ≡ ok k'
    → k'.metadata ≡ k.metadata
unfolding rotate_on_demand
metadata-rotate_on_demand env k k' e = ground arith

module _ (B : Backend) (env : Env) where
  rotatable-AllConsistent :
      (key : Key)
      → Returned B env key
      → Hoare (AllConsistent B env) (λ k. IsConsistent k.metadata) (rotatable B env key)
  unfolding rotatable
  rotatable-AllConsistent key c =
      Hoare-guard (is_external (get_metadata key).origin) unsupported_operation _ λ o.
        Hoare-bind (require (as_aes key) unsupported_operation) _
          (Hoare-require (as_aes key) unsupported_operation)
          λ k e. Hoare-guard (not ((get_metadata key).deletion_date == 0)) kms_invalid_state _ λ d.
            Hoare-guard (not (get_metadata key).enabled) disabled _
              λ n. Hoare-pure k (as_aes-IsConsistent key k c e)

  pub enable_key_rotation-AllConsistent :
      (key_id : Option Text)
      → Hoare (AllConsistent B env) (λ u. Unit {0}) (enable_key_rotation B env key_id)
  unfolding enable_key_rotation
  enable_key_rotation-AllConsistent key_id = Hoare-given key_id missing_parameter _ λ id.
      Hoare-bind (find_key B env id) _ (find-AllConsistent B env id) λ key c.
        Hoare-bind (rotatable B env key) _ (rotatable-AllConsistent key c) λ k ck.
          expect-AllConsistent B env
            (aes (record k { next_key_rotation = next_rotation k.next_key_rotation env.now })) ck

  pub disable_key_rotation-AllConsistent :
      (key_id : Option Text)
      → Hoare (AllConsistent B env) (λ u. Unit {0}) (disable_key_rotation B env key_id)
  unfolding disable_key_rotation
  disable_key_rotation-AllConsistent key_id = Hoare-given key_id missing_parameter _ λ id.
      Hoare-bind (find_key B env id) _ (find-AllConsistent B env id) λ key c.
        Hoare-bind (rotatable B env key) _ (rotatable-AllConsistent key c)
          λ k ck. expect-AllConsistent B env (aes (record k { next_key_rotation = none })) ck

  pub rotate_key_on_demand-AllConsistent :
      (key_id : Option Text)
      → Hoare (AllConsistent B env) (λ u. Unit {0}) (rotate_key_on_demand B env key_id)
  unfolding rotate_key_on_demand
  rotate_key_on_demand-AllConsistent key_id = Hoare-given key_id missing_parameter _ λ id.
      Hoare-bind (get_key B env id) _ (get-AllConsistent B env id) λ key c.
        Hoare-bind (rotatable B env key) _ (rotatable-AllConsistent key c) λ k ck.
          Hoare-bind (lift (or_limit (rotate_on_demand env k))) _
            (Hoare-lift (or_limit (rotate_on_demand env k)))
            λ k' e.
              saved-AllConsistent B env (aes k') (pure (get_arn key))
                (rw (metadata-rotate_on_demand env k k' e) ck) (Hoare-pure (get_arn key) tt)
