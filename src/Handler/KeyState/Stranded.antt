-- ===== src/Handler/KeyState/Stranded.antt =====
-- A key that waits for its material under handler/schedule_key_deletion.go, cancel_key_deletion.go and
-- enable_key.go, and then under handler/encrypt.go.
use local_kms.Prelude.{
  ℕ, ◌≡◌, refl, ◌||◌, true, false, ltb, is_empty, ℤ, below, above, to_nat, Text, codes, contains,
  length, Option, none, some, [], arith,
}
use mathlib.Core.Path.{subst}
use local_kms.Config.{Env, ensure_arn}
use local_kms.Clock.{add_days, unix}
use local_kms.Result.{ok, panic}
use local_kms.Cmk.{
  Key, KeyMetadata, AesKey, KeySpec, KeyState, KeyOrigin, EncryptionAlgorithm, aes,
  is_pending_deletion,
}
use local_kms.Cmk.Aes
use local_kms.Cmk.Context.{Context}
use local_kms.Cmk.Encryption.{Aead, encrypt_and_package}
use local_kms.Cmk.Rsa.{Oaep}
use local_kms.Data.Backend.{Backend}
use local_kms.Data.Database.{put_object, validate_key_data}
use local_kms.Data.Database.Writes.{unmarshal-encode}
use local_kms.Data.DiskSpace.{check_disk_space}
use local_kms.Data.Keys.{save_key, read_key, rotate, migrate, is_expired}
use local_kms.Data.Keys.Again.{load_key_still}
use local_kms.Data.Keys.Saving.{read-save_key}
use local_kms.Handler.Lookup.{find_key, get_key, get_usable_key}
use local_kms.Handler.Crypto.{encrypt, encrypt_under}
use local_kms.Handler.KeyState.{
  window, enable, schedule, cancel, enable_key, schedule_key_deletion, cancel_key_deletion,
}

-- A symmetric key of external origin as it is made: it has no material, and nothing of it has a date.
pub record IsEmpty (arn : Text) (k : AesKey) : Type 0 where
  pub own : k.metadata.arn ≡ arn
  pub external : k.metadata.origin ≡ KeyOrigin.external
  pub spec : k.metadata.key_spec ≡ KeySpec.symmetric_default
  pub no_material : k.backing_keys ≡ []
  pub no_rotation : k.next_key_rotation ≡ none
  pub no_last_second : k.metadata.valid_to ≡ 0

abbrev with_metadata : AesKey → KeyMetadata → AesKey
with_metadata k m = record k { metadata = m }

IsEmpty-enable :
    (arn : Text) (k : AesKey) → IsEmpty arn k → IsEmpty arn (with_metadata k (enable k.metadata))
unfolding enable
IsEmpty-enable arn k h = record {
  own = h.own;
  external = h.external;
  spec = h.spec;
  no_material = h.no_material;
  no_rotation = h.no_rotation;
  no_last_second = h.no_last_second;
}

IsEmpty-cancel :
    (arn : Text) (k : AesKey) → IsEmpty arn k → IsEmpty arn (with_metadata k (cancel k.metadata))
unfolding cancel
IsEmpty-cancel arn k h = record {
  own = h.own;
  external = h.external;
  spec = h.spec;
  no_material = h.no_material;
  no_rotation = h.no_rotation;
  no_last_second = h.no_last_second;
}

IsEmpty-schedule :
    (arn : Text) (date : ℕ) (k : AesKey)
    → IsEmpty arn k
    → IsEmpty arn (with_metadata k (schedule date k.metadata))
unfolding schedule
IsEmpty-schedule arn date k h = record {
  own = h.own;
  external = h.external;
  spec = h.spec;
  no_material = h.no_material;
  no_rotation = h.no_rotation;
  no_last_second = h.no_last_second;
}

-- A date that is not before now has not passed.
alive_schedule :
    (env : Env) (days : ℕ) (m : KeyMetadata)
    → is_pending_deletion env (schedule (add_days days env.now) m) ≡ false
unfolding is_pending_deletion schedule add_days unix
alive_schedule env days m = ground arith

module _ (B : Backend) (env : Env) (arn id : Text) (plain : contains (codes "alias/") id ≡ false)
    (named : ensure_arn env (codes "key/") id ≡ arn) (room : check_disk_space env ≡ none)
    (writable : (d : B.Store) (name : Text) (v : B.Value)
      → (d' : B.Store) × (B.put d name v ≡ some d')) where
  find_empty :
      (k : AesKey) (d : B.Store)
      → IsEmpty arn k
      → is_pending_deletion env k.metadata ≡ false
      → read_key B arn d ≡ (ok (aes k), d)
      → (find_key B env id d ≡ (ok (aes k), d)) × (get_key B env id d ≡ (ok (aes k), d))
  unfolding find_key get_key rotate Aes.rotate_if_needed migrate is_expired
  find_empty k d h alive there =
      let still : rotate env (aes k) ≡ (aes k, false) = ground (arith, h.no_rotation) in
      let loaded =
        load_key_still B env arn (aes k) (aes k) d there still (ground (arith, h.spec)) alive
          (ground (arith, h.no_last_second)) in
      (ground (arith, loaded, named), ground (arith, loaded, named, plain))

  save_empty :
      (k : AesKey) (d : B.Store)
      → IsEmpty arn k
      → (d' : B.Store) × (save_key B env (aes k) d ≡ (ok tt, d'))
        × (read_key B arn d' ≡ (ok (aes k), d'))
  unfolding save_key validate_key_data put_object
  save_empty k d h =
      let (d', put) = writable d k.metadata.arn (B.encode_key (aes k)) in
      let saved : save_key B env (aes k) d ≡ (ok tt, d') =
        ground (arith, room, put, h.external, unmarshal-encode B (aes k)) in
      (
        d',
        saved,
        subst (λ x. read_key B x d' ≡ (ok (aes k), d')) h.own
            (read-save_key B env (aes k) d d' saved).0,
      )

  schedule_empty :
      (days : Option ℤ) (k : AesKey) (d : B.Store)
      → (below (window days) 7 || above (window days) 30) ≡ false
      → IsEmpty arn k
      → is_pending_deletion env k.metadata ≡ false
      → k.metadata.key_state ≡ KeyState.pending_import
      → read_key B arn d ≡ (ok (aes k), d)
      → let k' = with_metadata k (schedule (add_days (to_nat (window days)) env.now) k.metadata) in
        (d' : B.Store) × (schedule_key_deletion B env (some id) days d ≡ (ok (aes k'), d'))
        × (read_key B arn d' ≡ (ok (aes k'), d'))
  unfolding schedule_key_deletion
  schedule_empty days k d in_range h alive waits there =
      let date = add_days (to_nat (window days)) env.now in
      let (found, got) = find_empty k d h alive there in
      let (d', saved, after) =
        save_empty (with_metadata k (schedule date k.metadata)) d (IsEmpty-schedule arn date k h) in
      (d', ground (arith, in_range, found, waits, saved), after)

  cancel_empty :
      (k : AesKey) (d : B.Store)
      → IsEmpty arn k
      → is_pending_deletion env k.metadata ≡ false
      → k.metadata.key_state ≡ KeyState.pending_deletion
      → read_key B arn d ≡ (ok (aes k), d)
      → (d' : B.Store) × (cancel_key_deletion B env (some id) d
          ≡ (ok (aes (with_metadata k (cancel k.metadata))), d'))
        × (read_key B arn d' ≡ (ok (aes (with_metadata k (cancel k.metadata))), d'))
  unfolding cancel_key_deletion
  cancel_empty k d h alive waits there =
      let (found, got) = find_empty k d h alive there in
      let (d', saved, after) =
        save_empty (with_metadata k (cancel k.metadata)) d (IsEmpty-cancel arn k h) in
      (d', ground (arith, found, waits, saved), after)

  enable_empty :
      (k : AesKey) (d : B.Store)
      → IsEmpty arn k
      → is_pending_deletion env k.metadata ≡ false
      → k.metadata.key_state ≡ KeyState.disabled
      → read_key B arn d ≡ (ok (aes k), d)
      → (d' : B.Store) × (enable_key B env (some id) d
          ≡ (ok (aes (with_metadata k (enable k.metadata))), d'))
        × (read_key B arn d' ≡ (ok (aes (with_metadata k (enable k.metadata))), d'))
  unfolding enable_key
  enable_empty k d h alive waits there =
      let (found, got) = find_empty k d h alive there in
      let (d', saved, after) =
        save_empty (with_metadata k (enable k.metadata)) d (IsEmpty-enable arn k h) in
      (d', ground (arith, got, waits, saved), after)

  module _ (gcm : Aead) (oaep : Oaep) (p : Text) (c : Context) (a : EncryptionAlgorithm)
      (some_left : is_empty p ≡ false) (fits : ltb 4096 (length p) ≡ false) where
    encrypt_empty :
        (k : AesKey) (d : B.Store)
        → IsEmpty arn k
        → is_pending_deletion env k.metadata ≡ false
        → k.metadata.enabled ≡ true
        → k.metadata.key_state ≡ KeyState.enabled
        → k.metadata.deletion_date ≡ 0
        → read_key B arn d ≡ (ok (aes k), d)
        → encrypt B env gcm oaep (some id) p c a d ≡ (panic, d)
    unfolding encrypt encrypt_under encrypt_and_package get_usable_key
    encrypt_empty k d h alive on state undated there =
        let (found, got) = find_empty k d h alive there in
        ground (arith, got, on, state, undated, some_left, fits, h.no_material)

    -- An empty key of external origin, which waits for its material, is named by its id or ARN; there is
    -- room on the disk and writes do not fail. ScheduleKeyDeletion with a window of 7 to 30 days,
    -- CancelKeyDeletion and EnableKey, at one time, all answer with the key, and Encrypt of a text of 1 to
    -- 4096 bytes then panics.
    pub encrypt-enable_key :
        (days : Option ℤ) (k : AesKey) (d : B.Store)
        → (below (window days) 7 || above (window days) 30) ≡ false
        → IsEmpty arn k
        → k.metadata.deletion_date ≡ 0
        → k.metadata.key_state ≡ KeyState.pending_import
        → read_key B arn d ≡ (ok (aes k), d)
        → (k₁ : Key) × (d₁ : B.Store) × (k₂ : Key) × (d₂ : B.Store) × (k₃ : Key) × (d₃ : B.Store)
          × (schedule_key_deletion B env (some id) days d ≡ (ok k₁, d₁))
          × (cancel_key_deletion B env (some id) d₁ ≡ (ok k₂, d₂))
          × (enable_key B env (some id) d₂ ≡ (ok k₃, d₃))
          × (encrypt B env gcm oaep (some id) p c a d₃ ≡ (panic, d₃))
    unfolding schedule cancel enable is_pending_deletion
    encrypt-enable_key days k d in_range h undated waits there =
        let n = to_nat (window days) in
        let date = add_days n env.now in
        let k₁ = with_metadata k (schedule date k.metadata) in
        let k₂ = with_metadata k₁ (cancel k₁.metadata) in
        let k₃ = with_metadata k₂ (enable k₂.metadata) in
        let h₁ : IsEmpty arn k₁ = IsEmpty-schedule arn date k h in
        let h₂ : IsEmpty arn k₂ = IsEmpty-cancel arn k₁ h₁ in
        let h₃ : IsEmpty arn k₃ = IsEmpty-enable arn k₂ h₂ in
        let (d₁, scheduled, there₁) =
          schedule_empty days k d in_range h (ground (arith, undated)) waits there in
        let (d₂, kept, there₂) =
          cancel_empty k₁ d₁ h₁ (alive_schedule env n k.metadata) refl there₁ in
        let (d₃, enabled, there₃) = enable_empty k₂ d₂ h₂ refl refl there₂ in
        (
          aes k₁,
          d₁,
          aes k₂,
          d₂,
          aes k₃,
          d₃,
          scheduled,
          kept,
          enabled,
          encrypt_empty k₃ d₃ h₃ refl refl refl refl there₃,
        )
