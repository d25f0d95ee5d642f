-- ===== src/Handler/KeyState/Deletion.antt =====
-- What becomes of a key that handler/schedule_key_deletion.go has scheduled for deletion.
use local_kms.Prelude.{
  ap, ◌∙◌, text_eq_refl, ◌≡◌, ◌≢◌, ◌*◌, ◌<◌, ◌||◌, true, false, Text, Option, none, some, ℤ, below,
  above, to_nat, arith,
}
use mathlib.Core.Path.{subst}
use local_kms.Config.{Env}
use local_kms.Clock.{add_days, second, unix}
use local_kms.Result.{ok, err}
use local_kms.Exec.{bind-ok, steps, guard-ok, passes}
use local_kms.Cmk.{
  Key, aes, rsa, ecc, hmac, get_metadata, set_metadata, get_arn, is_pending_deletion,
}
use local_kms.Data.{not_found}
use local_kms.Data.Backend.{Backend}
use local_kms.Data.Keys.{settle, load_key, read_key, save_key, rotate, migrate}
use local_kms.Data.Keys.Saving.{read-save_key}
use local_kms.Data.Keys.Again.{rotate-false}
use local_kms.Data.DiskSpace.{check_disk_space}
use local_kms.Data.Database.{delete_object}
use local_kms.Data.Keys.Loading.{load_key-refresh, get-set_metadata, metadata-rotate}
use local_kms.Handler.Responses.{expect, internal_failure, validation, kms_invalid_state}
use local_kms.Handler.Lookup.{find_key, is_pending_deletion_state}
use local_kms.Handler.KeyState.Invariant.{add_days_pos}
use local_kms.Handler.KeyState.{window, schedule, schedule_key_deletion}

-- What a load does before it looks at the deletion date keeps the date.
doomed-migrate :
    (env : Env) (k : Key)
    → is_pending_deletion env (get_metadata (migrate k)) ≡ is_pending_deletion env (get_metadata k)
unfolding migrate is_pending_deletion
doomed-migrate env (aes k) = ground arith
doomed-migrate env (rsa k) = ground arith
doomed-migrate env (ecc k) = ground arith
doomed-migrate env (hmac k) = ground arith

doomed-rotate :
    (env : Env) (k : Key)
    → is_pending_deletion env (get_metadata (rotate env k).0)
      ≡ is_pending_deletion env (get_metadata k)
doomed-rotate env k = ap (is_pending_deletion env) (metadata-rotate env k)

doomed :
    (env : Env) (k : Key)
    → is_pending_deletion env (get_metadata k) ≡ true
    → is_pending_deletion env (get_metadata (migrate (rotate env k).0)) ≡ true
doomed env k h = doomed-migrate env (rotate env k).0 ∙ doomed-rotate env k ∙ h

module _ (B : Backend) (env' : Env) where
  -- A stored key past its deletion date is never loaded.
  load_key-doomed :
      (k k₁ : Key) (d t : B.Store)
      → is_pending_deletion env' (get_metadata k) ≡ true
      → read_key B (get_arn k) d ≡ (ok k, d)
      → load_key B env' (get_arn k) d ≢ (ok k₁, t)
  load_key-doomed k k₁ d t due r h =
      let (k₀, first, kept) = load_key-refresh B env' (get_arn k) d t k₁ h in
      let same : k₀ ≡ k = ground (arith, r, first) in ground (arith, same, doomed env' k due)

  -- A load removes it, if the deletion can be made and the key is not rotated first.
  load_key-removes :
      (k : Key) (d e : B.Store)
      → is_pending_deletion env' (get_metadata k) ≡ true
      → read_key B (get_arn k) d ≡ (ok k, d)
      → check_disk_space env' ≡ none
      → B.delete d (get_arn k) ≡ some e
      → (rotate env' k).1 ≡ false
      → (load_key B env' (get_arn k) d ≡ (err not_found, e)) × (B.get e (get_arn k) ≡ none)
  unfolding load_key settle delete_object
  load_key-removes k d e due r room gone still = (
    ground (arith, r, rotate-false env' k still, doomed-migrate env' k, room, gone),
    ground (arith, B.get-delete (get_arn k) gone, text_eq_refl (get_arn k)),
  )

module _ (B : Backend) (env : Env) where
  -- What a request that scheduled a deletion leaves in the store.
  schedule_key_deletion-ok :
      (id : Text) (days : Option ℤ) (d d' : B.Store) (k : Key)
      → schedule_key_deletion B env (some id) days d ≡ (ok k, d')
      → (read_key B (get_arn k) d' ≡ (ok k, d'))
        × ((get_metadata k).deletion_date ≡ add_days (to_nat (window days)) env.now)
        × ((below (window days) 7 || above (window days) 30) ≡ false)
  unfolding schedule_key_deletion schedule
  schedule_key_deletion-ok id days d d' k h =
      elim (guard-ok _ (below (window days) 7 || above (window days) 30) validation d h) [
        | passes e₁ h₁ ↦ elim (bind-ok _ (find_key B env id) d h₁) [
          | steps k₀ t found h₂ ↦
              elim (guard-ok _ (is_pending_deletion_state (get_metadata k₀).key_state)
                kms_invalid_state t h₂) [
                  | passes e₂ h₃ ↦
                      let date = add_days (to_nat (window days)) env.now in
                      let k₁ = set_metadata k₀ (schedule date (get_metadata k₀)) in
                      elim (bind-ok _ (expect internal_failure (save_key B env k₁)) t h₃) [
                        | steps u e saved end ↦
                            let same : k₁ ≡ k = ground (arith, end) in
                            let kept : save_key B env k₁ t ≡ (ok tt, e) = ground (arith, saved) in
                            (
                              rw (← same) (
                                  subst (λ x. read_key B (get_arn k₁) x ≡ (ok k₁, x))
                                    (ground (arith, end)) (read-save_key B env k₁ t e kept).0),
                              rw (← same) (
                                  ap (λ m. m.deletion_date)
                                    (get-set_metadata k₀ (schedule date (get_metadata k₀)))),
                              e₁,
                            )
                      ]
                ]
        ]
      ]

  module _ (env' : Env) (id : Text) (days : Option ℤ) (d d' : B.Store) (k : Key)
      (done : schedule_key_deletion B env (some id) days d ≡ (ok k, d'))
      (past : add_days (to_nat (window days)) env.now < unix env'.now * second) where
    is_due :
        (read_key B (get_arn k) d' ≡ (ok k, d'))
        × (is_pending_deletion env' (get_metadata k) ≡ true)
    unfolding is_pending_deletion
    is_due =
        let (there, date, in_range) = schedule_key_deletion-ok id days d d' k done in
        (there, ground (arith, date, add_days_pos (window days) env.now in_range))

    -- A key whose deletion was scheduled is not loaded again when its date is past.
    pub load_key-schedule_key_deletion_ne :
        (k₁ : Key) (t : B.Store) → load_key B env' (get_arn k) d' ≢ (ok k₁, t)
    load_key-schedule_key_deletion_ne k₁ t = load_key-doomed B env' k k₁ d' t is_due.1 is_due.0

    -- A key whose deletion was scheduled is removed by the first load after its date, from the store
    -- that the request left: if the disk has room and the deletion can be made, and no rotation of the
    -- key is due, the load answers that there is no such key, and the store has no such entry.
    pub load_key-schedule_key_deletion :
        (e : B.Store)
        → check_disk_space env' ≡ none
        → B.delete d' (get_arn k) ≡ some e
        → (rotate env' k).1 ≡ false
        → (load_key B env' (get_arn k) d' ≡ (err not_found, e)) × (B.get e (get_arn k) ≡ none)
    load_key-schedule_key_deletion e room gone still =
        load_key-removes B env' k d' e is_due.1 is_due.0 room gone still
