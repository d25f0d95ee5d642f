-- ===== src/Data/Keys/Again.antt =====
-- LoadKey of data/database_key.go, twice at the same time.
use local_kms.Prelude.{
  ◌≡◌, refl, ap, sym, ◌∙◌, ◌⊎◌, Bool, true, false, Text, arith, Bool-cases, inl, inr,
}
use local_kms.Config.{Env}
use local_kms.Clock.{lt-add_year}
use local_kms.Result.{ok}
use local_kms.Exec.{bind-ok, steps}
use local_kms.Cmk.{
  Key, KeyMetadata, aes, rsa, ecc, hmac, get_arn, get_metadata, set_metadata, is_pending_deletion,
}
use local_kms.Cmk.Aes
use local_kms.Cmk.Hmac
use local_kms.Data.Backend.{Backend}
use local_kms.Data.Keys.{
  save_key, save_if, read_key, load_key, settle, expire, rotate, migrate, is_expired, reset_import,
}
use local_kms.Data.Keys.Saving.{read_key_same, read-save_key}
use local_kms.Data.Keys.Loading.{get-set_metadata, same_state}

rotate-rotate : (env : Env) (k : Key) → rotate env (rotate env k).0 ≡ ((rotate env k).0, false)
unfolding rotate Aes.rotate_if_needed Hmac.rotate_if_needed Hmac.rotate_to
rotate-rotate env (aes k) = ground (arith, lt-add_year env.now)
rotate-rotate env (rsa k) = refl
rotate-rotate env (ecc k) = refl
rotate-rotate env (hmac k) = ground (arith, lt-add_year env.now)

migrate-migrate_reset :
    (k : Key)
    → let k' = set_metadata (migrate k) (reset_import (get_metadata (migrate k))) in migrate k' ≡ k'
unfolding migrate reset_import
migrate-migrate_reset (aes k) = ground arith
migrate-migrate_reset (rsa k) = ground arith
migrate-migrate_reset (ecc k) = ground arith
migrate-migrate_reset (hmac k) = ground arith

pub rotate-false : (env : Env) (k : Key) → (rotate env k).1 ≡ false → rotate env k ≡ (k, false)
unfolding rotate Aes.rotate_if_needed Hmac.rotate_if_needed Hmac.rotate_to
rotate-false env (aes k) h = ground arith
rotate-false env (rsa k) h = refl
rotate-false env (ecc k) h = refl
rotate-false env (hmac k) h = ground arith

arn-migrate : (k : Key) → get_arn (migrate k) ≡ get_arn k
unfolding migrate
arn-migrate (aes k) = ground arith
arn-migrate (rsa k) = ground arith
arn-migrate (ecc k) = ground arith
arn-migrate (hmac k) = ground arith

-- What is left when the material has expired.
abbrev expired_key : Key → Key
expired_key k = set_metadata k (reset_import (get_metadata k))

arn-expired_key : (k : Key) → get_arn (expired_key k) ≡ get_arn k
unfolding reset_import
arn-expired_key k = ap (λ m. m.arn) (get-set_metadata k (reset_import (get_metadata k)))

reset_live :
    (env : Env) (m : KeyMetadata)
    → is_pending_deletion env m ≡ false
    → (is_pending_deletion env (reset_import m) ≡ false) × (is_expired env (reset_import m) ≡ false)
unfolding is_pending_deletion is_expired reset_import
reset_live env m h = (h, refl)

module _ (B : Backend) (env : Env) (arn : Text) where
  -- A stored key that is not to be rotated, is not past its date and has not expired.
  pub load_key_still :
      (k₀ k : Key) (d : B.Store)
      → read_key B arn d ≡ (ok k₀, d)
      → rotate env k₀ ≡ (k₀, false)
      → migrate k₀ ≡ k
      → is_pending_deletion env (get_metadata k) ≡ false
      → is_expired env (get_metadata k) ≡ false
      → load_key B env arn d ≡ (ok k, d)
  unfolding load_key settle expire
  load_key_still k₀ k d r s m p e = rw (r, s, m, p, e) refl

  read_key_after :
      (b : Bool) (k₀ k₁ : Key) (t d₁ : B.Store) (u : Unit {0})
      → read_key B arn t ≡ (ok k₀, t)
      → (b ≡ false → k₁ ≡ k₀)
      → get_arn k₁ ≡ arn
      → save_if B b env k₁ t ≡ (ok u, d₁)
      → read_key B arn d₁ ≡ (ok k₁, d₁)
  read_key_after true k₀ k₁ t d₁ u r same at saved = rw at at (read-save_key B env k₁ t d₁ saved).0
  read_key_after false k₀ k₁ t d₁ u r same at saved =
      let e : t ≡ d₁ = ap (λ p. p.1) saved in rw (same refl, ← e) r

  settle_cases :
      (k₂ k : Key) (d₁ d' : B.Store)
      → settle B env arn k₂ d₁ ≡ (ok k, d')
      → (is_pending_deletion env (get_metadata k₂) ≡ false)
        × (((is_expired env (get_metadata k₂) ≡ false) × (k₂ ≡ k) × (d₁ ≡ d'))
            ⊎ ((save_key B env (expired_key k₂) d₁ ≡ (ok tt, d')) × (expired_key k₂ ≡ k)))
  unfolding settle expire
  settle_cases k₂ k d₁ d' h = elim (Bool-cases (is_pending_deletion env (get_metadata k₂))) [
    | inl gone ↦ absurd (ground arith)
    | inr live ↦ elim (Bool-cases (is_expired env (get_metadata k₂))) [
      | inl over ↦ (live, inr (ground arith, ground arith))
      | inr valid ↦ (live, inl (valid, ground arith, ground arith))
    ]
  ]

  -- After a load that returned a key with the ARN that was asked for, and with no rotation due, a load
  -- of the ARN at the same time returns the same key and leaves the store as it is.
  pub load_key-load_key :
      (d d' : B.Store) (k : Key)
      → load_key B env arn d ≡ (ok k, d')
      → get_arn k ≡ arn
      → (rotate env k).1 ≡ false
      → load_key B env arn d' ≡ (ok k, d')
  unfolding load_key
  load_key-load_key d d' k h at r = elim (bind-ok _ (read_key B arn) d h) [
    | steps k₀ t first rest ↦
        elim (bind-ok _ (save_if B (rotate env k₀).1 env (rotate env k₀).0) t rest) [
          | steps u d₁ saved settled ↦
              let k₁ = (rotate env k₀).0 in
              let same : t ≡ d = sym (ap (λ p. p.1) first) ∙ read_key_same B arn d in
              let there : read_key B arn t ≡ (ok k₀, t) = rw same (first ∙ same_state k₀ same) in
              let (live, ends) = settle_cases (migrate k₁) k d₁ d' settled in
              elim ends [
                | inl (valid, e, stays) ↦
                    let own : get_arn k₁ ≡ arn = sym (arn-migrate k₁) ∙ ap get_arn e ∙ at in
                    rw (← stays) (
                      load_key_still k₁ k d₁
                        (read_key_after (rotate env k₀).1 k₀ k₁ t d₁ u there
                          (λ f. ap (λ p. p.0) (rotate-false env k₀ f)) own saved)
                        (rotate-rotate env k₀) e
                        (ap (λ x. is_pending_deletion env (get_metadata x)) (sym e) ∙ live)
                        (ap (λ x. is_expired env (get_metadata x)) (sym e) ∙ valid))
                | inr (reset, e) ↦
                    let k₃ = expired_key (migrate k₁) in
                    let own : get_arn k₃ ≡ arn = ap get_arn e ∙ at in
                    let m = get_metadata (migrate k₁) in
                    let still = reset_live env m live in
                    let meta : get_metadata k ≡ reset_import m =
                      ap get_metadata (sym e) ∙ get-set_metadata (migrate k₁) (reset_import m) in
                    load_key_still k₃ k d' (rw own at (read-save_key B env k₃ d₁ d' reset).0)
                      (rotate-false env k₃ (ap (λ x. (rotate env x).1) e ∙ r))
                      (migrate-migrate_reset k₁ ∙ e) (ap (is_pending_deletion env) meta ∙ still.0)
                      (ap (is_expired env) meta ∙ still.1)
              ]
        ]
  ]
