-- ===== src/Data/Keys/Fresh.antt =====
-- What LoadKey of data/database_key.go never returns.
use local_kms.Prelude.{◌≡◌, refl, some, ◌⊎◌, inl, inr, ◌∙◌, false, Text, arith}
use local_kms.Config.{Env}
use local_kms.Result.{ok}
use local_kms.Cmk.{Key, KeyMetadata, aes, get_metadata, set_metadata}
use local_kms.Cmk.Aes.Rotation.{HasPassed, due_iff}
use local_kms.Data.Backend.{Backend}
use local_kms.Data.Keys.{load_key, rotate, migrate}
use local_kms.Data.Keys.Loading.{
  refresh, load_key-refresh, rotation_due, due-rotate, due-migrate, due-set_metadata,
}
use local_kms.Data.Keys.Loaded.{IsOpen, Settled, refreshed}

module _ (env : Env) where
  -- The next rotation of a symmetric key is not set, or has not passed.
  abbrev pub IsRotated : Key → Type 0
  IsRotated (aes k) = ¬ HasPassed env.now k.next_key_rotation
  IsRotated _ = Unit

  -- No date in the metadata has passed.
  abbrev pub IsFresh : Key → Type 0
  IsFresh k =
      IsOpen env (get_metadata k).deletion_date × IsOpen env (get_metadata k).valid_to × IsRotated k

  IsRotated-due : (k : Key) → rotation_due env k ≡ false → IsRotated k
  IsRotated-due (aes k) h = λ p. absurd (ground (arith, (due_iff env k.next_key_rotation).1 p))
  IsRotated-due _ h = tt

  valid_to-Settled : (m₀ m : KeyMetadata) → Settled env m₀ m → IsOpen env m.valid_to
  valid_to-Settled m₀ m (inl (valid, e)) = rw e valid
  valid_to-Settled m₀ m (inr (over, e)) = rw e (inl refl)

  deletion_date-Settled :
      (m₀ m : KeyMetadata) → Settled env m₀ m → m.deletion_date ≡ m₀.deletion_date
  deletion_date-Settled m₀ m (inl (valid, e)) = rw e refl
  deletion_date-Settled m₀ m (inr (over, e)) = rw e refl

  not_due :
      (k₀ k : Key)
      → (m : KeyMetadata) × ((k ≡ migrate (rotate env k₀).0)
          ⊎ (k ≡ set_metadata (migrate (rotate env k₀).0) m))
      → rotation_due env k ≡ false
  not_due k₀ k (m, inl e) = rw e (due-migrate env (rotate env k₀).0 ∙ due-rotate env k₀)
  not_due k₀ k (m, inr e) = rw e (
      due-set_metadata env (migrate (rotate env k₀).0) m
      ∙ due-migrate env (rotate env k₀).0
      ∙ due-rotate env k₀)

  IsFresh-refresh : (k₀ k : Key) → refresh env k₀ ≡ some k → IsFresh k
  IsFresh-refresh k₀ k h =
      let (alive, settled, last) = refreshed env k₀ k h in
      (
        rw (deletion_date-Settled _ (get_metadata k) settled) alive,
        valid_to-Settled _ (get_metadata k) settled,
        IsRotated-due k (not_due k₀ k last),
      )

-- A load never returns a key whose deletion date or whose last second of its material lies before this
-- second, or a symmetric key whose next rotation has passed.
pub load_key-IsFresh :
    (B : Backend) (env : Env) (arn : Text) (d d' : B.Store) (k : Key)
    → load_key B env arn d ≡ (ok k, d')
    → IsFresh env k
load_key-IsFresh B env arn d d' k h =
    let (k₀, first, e) = load_key-refresh B env arn d d' k h in IsFresh-refresh env k₀ k e
