-- ===== src/Handler/Import/Invariant.antt =====
-- Consistency under handler/get_parameters_for_import.go, import_key_material.go and
-- delete_imported_key_material.go.
use local_kms.Prelude.{◌+◌, ◌≡◌, not, ltb, Text, text_eq, codes, Option, ℤ, arith}
use local_kms.Config.{Env}
use local_kms.Clock.{unix, day}
use local_kms.Exec.{pure, lift}
use local_kms.Exec.Hoare.{Hoare, Hoare-pure, Hoare-bind}
use local_kms.Cmk.{
  Key, KeyMetadata, ParametersForImport, WrappingAlgorithm, ExpirationModel, aes, rsa, ecc, hmac,
  get_metadata, set_metadata, get_arn, is_external,
}
use local_kms.Data.Backend.{Backend}
use local_kms.Data.Keys.Loading.{get-set_metadata}
use local_kms.Handler.Responses.{
  missing_parameter, validation, unsupported_operation, kms_invalid_state, invalid_import_token,
  expired_import_token, invalid_ciphertext, internal_failure,
}
use local_kms.Handler.Lookup.{get_key, is_pending_deletion_state, is_unavailable}
use local_kms.Handler.Rules.{Hoare-guard, Hoare-given, Hoare-lift}
use local_kms.Handler.Consistency.{
  IsConsistent, AllConsistent, Returned, get-AllConsistent, saved-AllConsistent,
}
use local_kms.Handler.Import.{
  Wrapping, parameters_of, set_parameters, import_material, supported, is_unset, expiration_model,
  mismatched, passed, imported, unimported, external_key, get_parameters_for_import,
  import_key_material, delete_imported_key_material,
}

imported-IsConsistent :
    (model : ExpirationModel) (valid_to : Option ℤ) (m : KeyMetadata)
    → IsConsistent (imported model valid_to m)
unfolding imported
imported-IsConsistent model valid_to m = ground arith

unimported-IsConsistent : (m : KeyMetadata) → IsConsistent (unimported m)
unfolding unimported
unimported-IsConsistent m = ground arith

metadata-set_parameters :
    (k : Key) (p : ParametersForImport) → get_metadata (set_parameters k p) ≡ get_metadata k
metadata-set_parameters (aes k) p = ground arith
metadata-set_parameters (rsa k) p = ground arith
metadata-set_parameters (ecc k) p = ground arith
metadata-set_parameters (hmac k) p = ground arith

module _ (B : Backend) (env : Env) where
  external_key-AllConsistent :
      (id : Text) → Hoare (AllConsistent B env) (Returned B env) (external_key B env id)
  external_key-AllConsistent id =
      Hoare-bind (get_key B env id) _ (get-AllConsistent B env id) λ key c.
        Hoare-guard (not (is_external (get_metadata key).origin)) unsupported_operation _ λ o.
          Hoare-guard (is_pending_deletion_state (get_metadata key).key_state) kms_invalid_state _
            λ p.
              Hoare-guard (is_unavailable (get_metadata key).key_state) kms_invalid_state _
                λ u. Hoare-pure key c

  pub get_parameters_for_import-AllConsistent :
      (w : Wrapping) (key_id : Option Text) (a : WrappingAlgorithm) (spec : Text)
      → Hoare
          (AllConsistent B env)
          (λ u. Unit {0})
          (get_parameters_for_import B env w key_id a spec)
  unfolding get_parameters_for_import
  get_parameters_for_import-AllConsistent w key_id a spec =
      Hoare-given key_id missing_parameter _ λ id.
        Hoare-guard (is_unset a) missing_parameter _ λ e₁.
          Hoare-guard (not (supported a)) validation _ λ e₂.
            Hoare-guard (text_eq spec (codes "")) missing_parameter _ λ e₃.
              Hoare-guard (not (text_eq spec (codes "RSA_2048"))) validation _ λ e₄.
                Hoare-bind (external_key B env id) _ (external_key-AllConsistent id) λ key c.
                  Hoare-given (w.generate env) internal_failure _ λ private_key.
                    Hoare-given (w.public_key private_key) internal_failure _ λ public_key.
                      Hoare-given (parameters_of key) unsupported_operation _ λ old.
                        saved-AllConsistent B env (with_parameters key private_key)
                          (pure (with_parameters key private_key))
                          (rw (metadata-set_parameters key (new_parameters key private_key)) c)
                          (Hoare-pure (with_parameters key private_key) tt)
    where
      new_parameters : Key → Text → ParametersForImport
      new_parameters key private_key = record {
        parameters_valid_to = unix (env.now + day);
        import_token = env.random (get_arn key) 3 256;
        private_key = private_key;
        wrapping_algorithm = a;
      }

      with_parameters : Key → Text → Key
      with_parameters key private_key = set_parameters key (new_parameters key private_key)

  pub import_key_material-AllConsistent :
      (w : Wrapping) (key_id import_token encrypted : Option Text) (model : Option ExpirationModel)
      (valid_to : Option ℤ)
      → Hoare
          (AllConsistent B env)
          (λ u. Unit {0})
          (import_key_material B env w key_id import_token encrypted model valid_to)
  unfolding import_key_material
  import_key_material-AllConsistent w key_id import_token encrypted model valid_to =
      Hoare-given key_id missing_parameter _ λ id.
        Hoare-given import_token missing_parameter _ λ token.
          Hoare-given encrypted missing_parameter _ λ text.
            Hoare-bind (lift (expiration_model model valid_to)) _
              (Hoare-lift (expiration_model model valid_to))
              λ x e. Hoare-guard (mismatched x valid_to) validation _ λ e₁.
                Hoare-guard (passed env valid_to) validation _ λ e₂.
                  Hoare-bind (external_key B env id) _ (external_key-AllConsistent id) λ key c.
                    Hoare-given (parameters_of key) unsupported_operation _ λ params.
                      Hoare-guard (not (text_eq params.import_token token)) invalid_import_token _
                        λ e₃.
                          Hoare-guard (ltb params.parameters_valid_to (unix env.now))
                            expired_import_token _
                            λ e₄.
                              Hoare-given
                                (w.unwrap params.private_key params.wrapping_algorithm text)
                                invalid_ciphertext _
                                λ material.
                                  Hoare-bind (lift (import_material key material)) _
                                    (Hoare-lift (import_material key material))
                                    λ k e₅.
                                      let m = imported x valid_to (get_metadata k) in
                                      let k' = set_metadata k m in
                                      saved-AllConsistent B env k' (pure k')
                                        (rw (get-set_metadata k m)
                                          (imported-IsConsistent x valid_to (get_metadata k)))
                                        (Hoare-pure k' tt)

  pub delete_imported_key_material-AllConsistent :
      (key_id : Option Text)
      → Hoare (AllConsistent B env) (λ u. Unit {0}) (delete_imported_key_material B env key_id)
  unfolding delete_imported_key_material
  delete_imported_key_material-AllConsistent key_id = Hoare-given key_id missing_parameter _ λ id.
      Hoare-bind (external_key B env id) _ (external_key-AllConsistent id) λ key c.
        let m = unimported (get_metadata key) in
        let k' = set_metadata key m in
        saved-AllConsistent B env k' (pure k')
          (rw (get-set_metadata key m) (unimported-IsConsistent (get_metadata key)))
          (Hoare-pure k' tt)
