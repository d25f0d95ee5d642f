-- ===== src/Data/Keys/Loaded.antt =====
-- What LoadKey of data/database_key.go changes in the key that is stored, in terms of its fields.
use local_kms.Prelude.{
  ◌≡◌, ◌≢◌, refl, ap, ◌⊎◌, inl, inr, ℕ, ◌≤◌, ◌<◌, ◌*◌, ◌/◌, ◌==◌, Bool-cases, true, false, Text,
  Option, some, List, [], ◌∷◌, ◌++◌, arith,
}
use local_kms.Config.{Env}
use local_kms.Clock.{unix}
use local_kms.Cmk.{
  Key, KeyMetadata, KeySpec, KeyState, ExpirationModel, AesKey, HmacKey, aes, rsa, ecc, hmac,
  get_metadata, set_metadata, is_pending_deletion,
}
use local_kms.Cmk.Aes
use local_kms.Cmk.Hmac
use local_kms.Cmk.Aes.Rotation.{HasPassed, due_iff}
use local_kms.Data.Backend.{Backend}
use local_kms.Data.Keys.{rotate, migrate, is_expired, reset_import, is_unset}
use local_kms.Data.Keys.Loading.{refresh, get-set_metadata, metadata-rotate}

-- The time in whole seconds.
abbrev pub this_second : Env → ℕ
this_second env = env.now / 1000000000 * 1000000000

-- A date that is not set, or not before this second.
abbrev pub IsOpen : Env → ℕ → Type 0
IsOpen env date = (date ≡ 0) ⊎ (this_second env ≤ date)

abbrev pub IsOver : Env → ℕ → Type 0
IsOver env date = (date ≢ 0) × (date < this_second env)

-- A key that has only the old name of its spec gets the new one.
abbrev pub Renamed : KeyMetadata → KeyMetadata → Type 0
Renamed m₀ m =
    ((m₀.key_spec ≡ KeySpec.unset) × (m ≡ record m₀ { key_spec = m₀.customer_master_key_spec }))
    ⊎ ((m₀.key_spec ≢ KeySpec.unset) × (m ≡ m₀))

-- Material that is valid stays; a key whose material has expired is disabled and waits for new material.
abbrev pub Settled : Env → KeyMetadata → KeyMetadata → Type 0
Settled env m₀ m =
    (IsOpen env m₀.valid_to × (m ≡ m₀))
    ⊎ (IsOver env m₀.valid_to
        × (m ≡ record m₀ {
          enabled = false;
          key_state = KeyState.pending_import;
          expiration_model = ExpirationModel.unset;
          valid_to = 0;
        }))

-- A list of backing keys gets a new one behind the others when the next rotation has passed.
abbrev pub Grows : Env → Option ℕ → List Text → List Text → Type 0
Grows env next keys keys' =
    ((¬ HasPassed env.now next) × (keys' ≡ keys))
    ⊎ (HasPassed env.now next × (new : Text) × (keys' ≡ keys ++ new ∷ []))

abbrev pub IsHmacSpec : KeySpec → Type 0
IsHmacSpec KeySpec.hmac_224 = Unit
IsHmacSpec KeySpec.hmac_256 = Unit
IsHmacSpec KeySpec.hmac_384 = Unit
IsHmacSpec KeySpec.hmac_512 = Unit
IsHmacSpec _ = ⊥

-- The kind of a key and its private key stay; only its backing keys can grow. A key for codes that has
-- another spec, or only the old name of its spec, is not rotated.
abbrev pub Rotated : Env → Key → Key → Type 0
Rotated env (aes k₀) (aes k) = Grows env k₀.next_key_rotation k₀.backing_keys k.backing_keys
Rotated env (hmac k₀) (hmac k) =
    Grows env k₀.next_key_rotation k₀.backing_keys k.backing_keys
    ⊎ ((¬ IsHmacSpec k₀.metadata.key_spec) × (k.backing_keys ≡ k₀.backing_keys))
Rotated env (rsa k₀) (rsa k) = k.private_key ≡ k₀.private_key
Rotated env (ecc k₀) (ecc k) = k.private_key ≡ k₀.private_key
Rotated env _ _ = ⊥

pub record Loaded (env : Env) (k₀ k : Key) : Type 0 where
  pub alive : IsOpen env (get_metadata k₀).deletion_date
  pub renamed : KeyMetadata
  pub is_renamed : Renamed (get_metadata k₀) renamed
  pub settled : Settled env renamed (get_metadata k)
  pub rotated : Rotated env k₀ k

Rotated-set_metadata :
    (env : Env) (k₀ k : Key) (m : KeyMetadata)
    → Rotated env k₀ k
    → Rotated env k₀ (set_metadata k m)
Rotated-set_metadata env (aes k₀) (aes k) m h = h
Rotated-set_metadata env (hmac k₀) (hmac k) m h = h
Rotated-set_metadata env (rsa k₀) (rsa k) m h = h
Rotated-set_metadata env (ecc k₀) (ecc k) m h = h
Rotated-set_metadata env _ _ m h = absurd h

aes-Grows :
    (env : Env) (k : AesKey)
    → Grows env k.next_key_rotation k.backing_keys (Aes.rotate_if_needed env k).0.backing_keys
unfolding Aes.rotate_if_needed
aes-Grows env k = elim (Bool-cases (Aes.due env k.next_key_rotation)) [
  | inl over ↦ inr (
    (due_iff env k.next_key_rotation).0 over,
    Aes.generate_key env k.metadata.arn 0,
    ground arith,
  )
  | inr not_yet ↦
      inl (λ h. absurd (ground (arith, (due_iff env k.next_key_rotation).1 h)), ground arith)
]

abbrev of_spec : Env → HmacKey → KeySpec → List Text
of_spec env k spec = (Hmac.rotate_to env k (Hmac.get_hmac_key_size spec)).0.backing_keys

of_spec-Grows :
    (env : Env) (k : HmacKey) (spec : KeySpec)
    → HasPassed env.now k.next_key_rotation
    → Grows env k.next_key_rotation k.backing_keys (of_spec env k spec)
      ⊎ ((¬ IsHmacSpec spec) × (of_spec env k spec ≡ k.backing_keys))
unfolding Hmac.rotate_to Hmac.get_hmac_key_size
of_spec-Grows env k KeySpec.hmac_224 h = inl (inr (h, env.random k.metadata.arn 0 28, refl))
of_spec-Grows env k KeySpec.hmac_256 h = inl (inr (h, env.random k.metadata.arn 0 32, refl))
of_spec-Grows env k KeySpec.hmac_384 h = inl (inr (h, env.random k.metadata.arn 0 48, refl))
of_spec-Grows env k KeySpec.hmac_512 h = inl (inr (h, env.random k.metadata.arn 0 64, refl))
of_spec-Grows env k _ h = inr (λ x. x, refl)

hmac-Rotated :
    (env : Env) (k : HmacKey) → Rotated env (hmac k) (hmac (Hmac.rotate_if_needed env k).0)
unfolding Hmac.rotate_if_needed
hmac-Rotated env k = elim (Bool-cases (Aes.due env k.next_key_rotation)) [
  | inl over ↦
      rw over (of_spec-Grows env k k.metadata.key_spec ((due_iff env k.next_key_rotation).0 over))
  | inr not_yet ↦
      let off : ¬ HasPassed env.now k.next_key_rotation =
        λ h. absurd (ground (arith, (due_iff env k.next_key_rotation).1 h)) in
      inl (inl (off, ground arith))
]

Rotated-rotate : (env : Env) (k : Key) → Rotated env k (rotate env k).0
unfolding rotate
Rotated-rotate env (aes k) = aes-Grows env k
Rotated-rotate env (hmac k) = hmac-Rotated env k
Rotated-rotate env (rsa k) = refl
Rotated-rotate env (ecc k) = refl

unset_of-is_unset : (s : KeySpec) → is_unset s ≡ true → s ≡ KeySpec.unset
unset_of-is_unset KeySpec.unset h = refl
unset_of-is_unset _ h = absurd (ground arith)

set_of-is_unset : (s : KeySpec) → is_unset s ≡ false → s ≢ KeySpec.unset
set_of-is_unset KeySpec.unset h = absurd (ground arith)
set_of-is_unset _ h = λ e. absurd (ground arith)

Renamed-migrate : (k : Key) → Renamed (get_metadata k) (get_metadata (migrate k))
unfolding migrate
Renamed-migrate k = elim (Bool-cases (is_unset (get_metadata k).key_spec)) [
  | inl old ↦ inl (unset_of-is_unset (get_metadata k).key_spec old, rw old (get-set_metadata k _))
  | inr new ↦ inr (set_of-is_unset (get_metadata k).key_spec new, rw new refl)
]

pub deletion_date-Renamed : (m₀ m : KeyMetadata) → Renamed m₀ m → m.deletion_date ≡ m₀.deletion_date
deletion_date-Renamed m₀ m (inl (old, e)) = rw e refl
deletion_date-Renamed m₀ m (inr (new, e)) = rw e refl

module _ (env : Env) where
  Rotated-migrate : (k₀ k : Key) → Rotated env k₀ k → Rotated env k₀ (migrate k)
  unfolding migrate
  Rotated-migrate k₀ k h = elim (Bool-cases (is_unset (get_metadata k).key_spec)) [
    | inl old ↦ rw old (Rotated-set_metadata env k₀ k _ h)
    | inr new ↦ rw new h
  ]

  pub IsOpen-alive :
      (m : KeyMetadata) → is_pending_deletion env m ≡ false → IsOpen env m.deletion_date
  unfolding is_pending_deletion unix
  IsOpen-alive m h = elim (Bool-cases (m.deletion_date == 0)) [
    | inl unset ↦ inl (ground arith)
    | inr set ↦ inr (ground arith)
  ]

  IsOpen-valid : (m : KeyMetadata) → is_expired env m ≡ false → IsOpen env m.valid_to
  unfolding is_expired unix
  IsOpen-valid m h = elim (Bool-cases (m.valid_to == 0)) [
    | inl unset ↦ inl (ground arith)
    | inr set ↦ inr (ground arith)
  ]

  IsOver-expired : (m : KeyMetadata) → is_expired env m ≡ true → IsOver env m.valid_to
  unfolding is_expired unix
  IsOver-expired m h = (λ e. absurd (ground arith), ground arith)

  -- What `refresh` does after the rotation and the new name.
  pub refreshed :
      (k₀ k : Key)
      → refresh env k₀ ≡ some k
      → let k' = migrate (rotate env k₀).0 in
        IsOpen env (get_metadata k').deletion_date
        × Settled env (get_metadata k') (get_metadata k)
        × ((m : KeyMetadata) × ((k ≡ k') ⊎ (k ≡ set_metadata k' m)))
  unfolding reset_import
  refreshed k₀ k h =
      let k' = migrate (rotate env k₀).0 in
      let m = get_metadata k' in
      let alive : is_pending_deletion env m ≡ false = ground arith in
      elim (Bool-cases (is_expired env m)) [
        | inl over ↦
            let e : k ≡ set_metadata k' (reset_import m) = ground arith in
            (
              IsOpen-alive m alive,
              inr (IsOver-expired m over, rw e (get-set_metadata k' (reset_import m))),
              (reset_import m, inr e),
            )
        | inr valid ↦
            let e : k ≡ k' = ground arith in
            (IsOpen-alive m alive, inl (IsOpen-valid m valid, ap get_metadata e), (m, inl e))
      ]

  Rotated-refresh :
      (k₀ k : Key)
      → (m : KeyMetadata) × ((k ≡ migrate (rotate env k₀).0)
          ⊎ (k ≡ set_metadata (migrate (rotate env k₀).0) m))
      → Rotated env k₀ k
  Rotated-refresh k₀ k (m, inl e) =
      rw e (Rotated-migrate k₀ (rotate env k₀).0 (Rotated-rotate env k₀))
  Rotated-refresh k₀ k (m, inr e) = rw e (
      Rotated-set_metadata env k₀ (migrate (rotate env k₀).0) m
        (Rotated-migrate k₀ (rotate env k₀).0 (Rotated-rotate env k₀)))

  pub Loaded-refresh : (k₀ k : Key) → refresh env k₀ ≡ some k → Loaded env k₀ k
  Loaded-refresh k₀ k h =
      let k₁ = (rotate env k₀).0 in
      let (alive, settled, last) = refreshed k₀ k h in
      let same : get_metadata k₁ ≡ get_metadata k₀ = metadata-rotate env k₀ in
      let renamed : Renamed (get_metadata k₀) (get_metadata (migrate k₁)) =
        rw (← same) (Renamed-migrate k₁) in
      record {
        alive =
            rw (← deletion_date-Renamed (get_metadata k₀) (get_metadata (migrate k₁)) renamed)
              alive;
        renamed = get_metadata (migrate k₁);
        is_renamed = renamed;
        settled = settled;
        rotated = Rotated-refresh k₀ k last;
      }
