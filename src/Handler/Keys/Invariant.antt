-- ===== src/Handler/Keys/Invariant.antt =====
-- Consistency under handler/create_key.go, update_key_description.go and put_key_policy.go.
use local_kms.Prelude.{◌≡◌, ◌==◌, not, ltb, length, Text, text_eq, codes, Option, [], arith}
use local_kms.Config.{Env, ensure_arn}
use local_kms.Exec.{pure, lift, check, ◌>>◌}
use local_kms.Exec.Hoare.{Hoare, Hoare-pure, Hoare-bind}
use local_kms.Cmk.{Key, aes, rsa, ecc, hmac, get_metadata, set_metadata, initialize}
use local_kms.Cmk.Generate.{Generators}
use local_kms.Data.Backend.{Backend}
use local_kms.Data.Keys.Loading.{get-set_metadata}
use local_kms.Handler.Responses.{missing_parameter, validation, kms_invalid_state, internal_failure}
use local_kms.Handler.Lookup.{find_key, get_key}
use local_kms.Handler.Rules.{Hoare-guard, Hoare-given, Hoare-lift, Hoare-check}
use local_kms.Handler.Consistency.{
  IsConsistent, AllConsistent, find-AllConsistent, get-AllConsistent, expect-AllConsistent,
  saved-AllConsistent,
}
use local_kms.Exec.Preserves.{Hoare-Preserves}
use local_kms.Handler.Keeping.Storage.{Apart}
use local_kms.Handler.Keeping.Writers.{Keeps-save_tags}
use local_kms.Handler.Tags.{validate_tags, save_tags}
use local_kms.Handler.Keys.{
  CreateKeyInput, DefaultPolicy, empty_metadata, longer, policy_or, describe, resolve_spec,
  apply_origin, make_key, set_policy, or_text, create_key, update_key_description, put_key_policy,
}
use local_kms.Handler.Keys.Makers.{
  make_key-IsConsistent, new-IsConsistent, apply_origin-IsConsistent,
}

metadata-set_policy : (k : Key) (p : Text) → get_metadata (set_policy k p) ≡ get_metadata k
metadata-set_policy (aes k) p = ground arith
metadata-set_policy (rsa k) p = ground arith
metadata-set_policy (ecc k) p = ground arith
metadata-set_policy (hmac k) p = ground arith

module _ (B : Backend) (env : Env) where
  pub create_key-AllConsistent :
      (apart : Apart B) (g : Generators) (default : DefaultPolicy) (body : CreateKeyInput)
      → Hoare (AllConsistent B env) (λ u. Unit {0}) (create_key B env g default body)
  unfolding create_key
  create_key-AllConsistent apart g default body = Hoare-given env.uuid internal_failure _ λ id.
      Hoare-guard (longer 8192 body.description) validation _ λ e₁.
        Hoare-guard (longer 32768 body.policy) validation _ λ e₂.
          Hoare-bind (check (validate_tags body.tags)) _ (Hoare-check (validate_tags body.tags))
            λ u v.
              let m = describe body.description (initialize env id empty_metadata) in
              let policy = policy_or (default.policy_for env.aws_account_id) body.policy in
              let specs = resolve_spec body.key_spec body.customer_master_key_spec in
              Hoare-bind (lift specs) _ (Hoare-lift specs) λ spec e₃.
                Hoare-bind (lift (apply_origin body.origin spec m)) _
                  (Hoare-lift (apply_origin body.origin spec m))
                  λ m' e₄.
                    Hoare-bind (lift (make_key g env m' policy spec body.key_usage)) _
                      (Hoare-lift (make_key g env m' policy spec body.key_usage))
                      λ key e₅.
                        saved-AllConsistent B env key (save_tags B env key body.tags >> pure key)
                          (make_key-IsConsistent g env m' policy
                            (apply_origin-IsConsistent body.origin spec m m'
                              (new-IsConsistent env id body.description) e₄)
                            spec body.key_usage key e₅)
                          (Hoare-bind (save_tags B env key body.tags) _
                            (Hoare-Preserves (save_tags B env key body.tags)
                              (Keeps-save_tags B env apart key body.tags))
                            λ u v. Hoare-pure key tt)

  pub update_key_description-AllConsistent :
      (key_id description : Option Text)
      → Hoare
          (AllConsistent B env)
          (λ u. Unit {0})
          (update_key_description B env key_id description)
  unfolding update_key_description
  update_key_description-AllConsistent key_id description =
      Hoare-given key_id missing_parameter _ λ id.
        Hoare-guard (ltb 8192 (length (or_text [] description))) validation _ λ e₁.
          Hoare-bind (find_key B env id) _ (find-AllConsistent B env id) λ key c.
            Hoare-guard (not ((get_metadata key).deletion_date == 0)) kms_invalid_state _ λ e₂.
              let m = record (get_metadata key) { description = or_text [] description } in
              let c' : IsConsistent m = record { on = c.on; off = c.off; dated = c.dated } in
              expect-AllConsistent B env (set_metadata key m) (rw (get-set_metadata key m) c')

  pub put_key_policy-AllConsistent :
      (key_id policy policy_name : Option Text)
      → Hoare (AllConsistent B env) (λ u. Unit {0}) (put_key_policy B env key_id policy policy_name)
  unfolding put_key_policy
  put_key_policy-AllConsistent key_id policy policy_name = Hoare-given key_id validation _ λ id.
      Hoare-given policy validation _ λ p.
        Hoare-guard (not (text_eq (or_text (codes "default") policy_name) (codes "default")))
          validation _
          λ e₁. Hoare-guard (ltb 32768 (length p)) validation _ λ e₂.
            Hoare-bind (get_key B env (ensure_arn env (codes "key/") id)) _
              (get-AllConsistent B env (ensure_arn env (codes "key/") id))
              λ key c.
                expect-AllConsistent B env (set_policy key p) (rw (metadata-set_policy key p) c)
