-- ===== src/Handler/KeyState/Invariant.antt =====
-- Consistency under handler/enable_key.go, disable_key.go, schedule_key_deletion.go and
-- cancel_key_deletion.go.
use local_kms.Prelude.{
  ℕ, ◌<◌, ◌≡◌, not, false, Text, Option, ℤ, pos, negsuc, below, above, to_nat, ◌||◌, arith,
}
use local_kms.Config.{Env}
use local_kms.Exec.{pure}
use local_kms.Exec.Hoare.{Hoare, Hoare-pure, Hoare-bind}
use local_kms.Cmk.{Key, KeyMetadata, get_metadata, set_metadata}
use local_kms.Data.Backend.{Backend}
use local_kms.Data.Keys.Loading.{get-set_metadata}
use local_kms.Handler.Responses.{missing_parameter, validation, kms_invalid_state}
use local_kms.Handler.Lookup.{find_key, get_key, is_pending_import, is_pending_deletion_state}
use local_kms.Handler.Rules.{Hoare-guard, Hoare-given}
use local_kms.Clock.{add_days}
use local_kms.Handler.Consistency.{
  IsConsistent, AllConsistent, Returned, find-AllConsistent, get-AllConsistent, saved-AllConsistent,
}
use local_kms.Handler.KeyState.{
  window, enable, disable, schedule, cancel, update, enable_key, disable_key, schedule_key_deletion,
  cancel_key_deletion,
}

pub add_days_pos :
    (days : ℤ) (now : ℕ) → (below days 7 || above days 30) ≡ false → 0 < add_days (to_nat days) now
unfolding add_days
add_days_pos (pos n) now h = ground arith
add_days_pos (negsuc n) now h = cc

module _ (B : Backend) (env : Env) where
  update-AllConsistent :
      (f : KeyMetadata → KeyMetadata) (k : Key)
      → IsConsistent (f (get_metadata k))
      → Hoare (AllConsistent B env) (Returned B env) (update B env f k)
  update-AllConsistent f k c =
      let k' = set_metadata k (f (get_metadata k)) in
      let c' : IsConsistent (get_metadata k') = rw (get-set_metadata k) c in
      saved-AllConsistent B env k' (pure k') c' (Hoare-pure k' c')

  enable-IsConsistent : (m : KeyMetadata) → IsConsistent (enable m)
  unfolding enable
  enable-IsConsistent m = ground arith

  disable-IsConsistent : (m : KeyMetadata) → IsConsistent (disable m)
  unfolding disable
  disable-IsConsistent m = ground arith

  cancel-IsConsistent : (m : KeyMetadata) → IsConsistent (cancel m)
  unfolding cancel
  cancel-IsConsistent m = ground arith

  schedule-IsConsistent : (date : ℕ) (m : KeyMetadata) → 0 < date → IsConsistent (schedule date m)
  unfolding schedule
  schedule-IsConsistent date m h = ground arith

  pub enable_key-AllConsistent :
      (key_id : Option Text)
      → Hoare (AllConsistent B env) (Returned B env) (enable_key B env key_id)
  unfolding enable_key
  enable_key-AllConsistent key_id = Hoare-given key_id missing_parameter _ λ id.
      Hoare-bind (get_key B env id) _ (get-AllConsistent B env id) λ key c.
        Hoare-guard (is_pending_deletion_state (get_metadata key).key_state) kms_invalid_state _
          λ p.
            Hoare-guard (is_pending_import (get_metadata key).key_state) kms_invalid_state _
              λ q. update-AllConsistent enable key (enable-IsConsistent (get_metadata key))

  pub disable_key-AllConsistent :
      (key_id : Option Text)
      → Hoare (AllConsistent B env) (Returned B env) (disable_key B env key_id)
  unfolding disable_key
  disable_key-AllConsistent key_id = Hoare-given key_id missing_parameter _ λ id.
      Hoare-bind (get_key B env id) _ (get-AllConsistent B env id) λ key c.
        Hoare-guard (is_pending_deletion_state (get_metadata key).key_state) kms_invalid_state _
          λ p.
            Hoare-guard (is_pending_import (get_metadata key).key_state) kms_invalid_state _
              λ q. update-AllConsistent disable key (disable-IsConsistent (get_metadata key))

  pub schedule_key_deletion-AllConsistent :
      (key_id : Option Text) (days : Option ℤ)
      → Hoare (AllConsistent B env) (Returned B env) (schedule_key_deletion B env key_id days)
  unfolding schedule_key_deletion
  schedule_key_deletion-AllConsistent key_id days = Hoare-given key_id missing_parameter _ λ id.
      Hoare-guard (below (window days) 7 || above (window days) 30) validation _ λ in_range.
        Hoare-bind (find_key B env id) _ (find-AllConsistent B env id) λ key c.
          Hoare-guard (is_pending_deletion_state (get_metadata key).key_state) kms_invalid_state _
            λ p. update-AllConsistent (schedule (add_days (to_nat (window days)) env.now)) key (
              schedule-IsConsistent _ (get_metadata key)
                (add_days_pos (window days) env.now in_range))

  pub cancel_key_deletion-AllConsistent :
      (key_id : Option Text)
      → Hoare (AllConsistent B env) (Returned B env) (cancel_key_deletion B env key_id)
  unfolding cancel_key_deletion
  cancel_key_deletion-AllConsistent key_id = Hoare-given key_id missing_parameter _ λ id.
      Hoare-bind (find_key B env id) _ (find-AllConsistent B env id) λ key c.
        Hoare-guard (not (is_pending_deletion_state (get_metadata key).key_state)) kms_invalid_state
          _ λ p. update-AllConsistent cancel key (cancel-IsConsistent (get_metadata key))
