-- ===== src/Data/Keys/Loading.antt =====
-- What LoadKey of data/database_key.go returns.
use local_kms.Prelude.{
  ◌≡◌, refl, ap, sym, ◌∙◌, Bool, false, Text, Option, none, some, arith, if◌then◌else◌,
}
use local_kms.Config.{Env}
use local_kms.Result.{Result, ok}
use local_kms.Exec.{bind-ok, steps}
use local_kms.Data.Keys.Saving.{read_key_same}
use local_kms.Cmk.{
  Key, KeyMetadata, aes, rsa, ecc, hmac, get_metadata, set_metadata, is_pending_deletion,
}
use local_kms.Clock.{lt-add_year}
use local_kms.Cmk.Aes
use local_kms.Cmk.Hmac
use local_kms.Cmk.Aes.{due}
use local_kms.Data.Backend.{Backend}
use local_kms.Data.Keys.{
  save_if, read_key, load_key, settle, rotate, migrate, is_expired, reset_import,
}

-- What a load does to a stored key, without the writes.
abbrev pub refresh : Env → Key → Option Key
refresh env k =
    let k' = migrate (rotate env k).0 in
    if is_pending_deletion env (get_metadata k')
    then none
    else if is_expired env (get_metadata k')
    then some (set_metadata k' (reset_import (get_metadata k')))
    else some k'

pub same_state :
    {E A S : Type 0} {t d : S} (x : A) → t ≡ d → ◌≡◌ {A = Result E A × S} (ok x, t) (ok x, d)
same_state x e = ap (λ s. (ok x, s)) e

module _ (B : Backend) (env : Env) (arn : Text) where
  settle-refresh :
      (d d' : B.Store) (k k₀ : Key)
      → settle B env arn (migrate (rotate env k₀).0) d ≡ (ok k, d')
      → refresh env k₀ ≡ some k
  unfolding settle
  settle-refresh d d' k k₀ h = ground arith

  pub load_key-refresh :
      (d d' : B.Store) (k : Key)
      → load_key B env arn d ≡ (ok k, d')
      → (k₀ : Key) × (read_key B arn d ≡ (ok k₀, d)) × (refresh env k₀ ≡ some k)
  unfolding load_key
  load_key-refresh d d' k h = elim (bind-ok _ (read_key B arn) d h) [
    | steps k₀ t first rest ↦
        elim (bind-ok _ (save_if B (rotate env k₀).1 env (rotate env k₀).0) t rest) [
          | steps u d₁ saved settled ↦ (
            k₀,
            first ∙ same_state k₀ (sym (ap (λ p. p.1) first) ∙ read_key_same B arn d),
            settle-refresh d₁ d' k k₀ settled,
          )
        ]
  ]

abbrev pub rotation_due : Env → Key → Bool
rotation_due env (aes k) = due env k.next_key_rotation
rotation_due env _ = false

pub get-set_metadata : (k : Key) (m : KeyMetadata) → get_metadata (set_metadata k m) ≡ m
get-set_metadata (aes k) m = refl
get-set_metadata (rsa k) m = refl
get-set_metadata (ecc k) m = refl
get-set_metadata (hmac k) m = refl

pub metadata-rotate : (env : Env) (k : Key) → get_metadata (rotate env k).0 ≡ get_metadata k
unfolding rotate Aes.rotate_if_needed Hmac.rotate_if_needed
metadata-rotate env (aes k) = ground arith
metadata-rotate env (rsa k) = refl
metadata-rotate env (ecc k) = refl
metadata-rotate env (hmac k) = ground arith

module _ (env : Env) where
  pub due-set_metadata :
      (k : Key) (m : KeyMetadata) → rotation_due env (set_metadata k m) ≡ rotation_due env k
  due-set_metadata (aes k) m = refl
  due-set_metadata (rsa k) m = refl
  due-set_metadata _ m = refl

  pub due-rotate : (k : Key) → rotation_due env (rotate env k).0 ≡ false
  unfolding rotate Aes.rotate_if_needed
  due-rotate (aes k) = ground (arith, lt-add_year env.now)
  due-rotate (rsa k) = refl
  due-rotate (ecc k) = refl
  due-rotate (hmac k) = refl

  pub due-migrate : (k : Key) → rotation_due env (migrate k) ≡ rotation_due env k
  unfolding migrate
  due-migrate (aes k) = ground arith
  due-migrate (rsa k) = ground arith
  due-migrate (ecc k) = ground arith
  due-migrate (hmac k) = ground arith
