-- ===== src/Cmk/Aes/Rotation.antt =====
-- The rotations of cmk/aes_key.go: the backing keys and counts that they leave.
use local_kms.Prelude.{
  ℕ, zero, suc, ◌+◌, ◌≤◌, ◌<◌, ◌≡◌, ◌↔◌, refl, true, false, Option, none, some, length,
  length-append, [], ◌∷◌, ◌++◌, arith, if◌then◌else◌,
}
use Prim.Native.Nat.{min}
use local_kms.Config.{Env}
use local_kms.Clock.{lt-add_year}
use local_kms.Result.{Result, ok, err, panic}
use local_kms.Cmk.{AesKey}
use local_kms.Cmk.Errors.{CmkError}
use local_kms.Cmk.Aes.{
  due, rotate_if_needed, rotate_on_demand, generate_key, max_on_demand_key_rotations,
}

-- The rotations on demand that a series of requests makes, a refused one changing nothing.
abbrev pub or_same : AesKey → Result CmkError AesKey → AesKey
or_same k (ok k') = k'
or_same k (err e) = k
or_same k panic = k

abbrev pub rotate_times : ℕ → Env → AesKey → AesKey
rotate_times zero env k = k
rotate_times (suc n) env k = rotate_times n env (or_same k (rotate_on_demand env k))

rotate_once :
    (env : Env) (k : AesKey)
    → k.on_demand_rotation_count ≤ max_on_demand_key_rotations
    → let k' = or_same k (rotate_on_demand env k) in
      (length k'.backing_keys + k.on_demand_rotation_count
        ≡ length k.backing_keys + k'.on_demand_rotation_count)
      × (k'.on_demand_rotation_count
          ≡ min (k.on_demand_rotation_count + 1) max_on_demand_key_rotations)
unfolding rotate_on_demand
rotate_once env k h =
    ground (arith, length-append k.backing_keys (generate_key env k.metadata.arn 1 ∷ []))

-- n requests to rotate a key on demand raise its count by n, or to the limit of 25, and add as many
-- backing keys as they raise the count.
pub rotate_times_bound :
    (n : ℕ) (env : Env) (k : AesKey)
    → k.on_demand_rotation_count ≤ max_on_demand_key_rotations
    → (length (rotate_times n env k).backing_keys + k.on_demand_rotation_count
        ≡ length k.backing_keys + (rotate_times n env k).on_demand_rotation_count)
      × ((rotate_times n env k).on_demand_rotation_count
          ≡ min (k.on_demand_rotation_count + n) max_on_demand_key_rotations)
rotate_times_bound zero env k h = omega arith
rotate_times_bound (suc n) env k h =
    let k' = or_same k (rotate_on_demand env k) in
    let step = rotate_once env k h in omega (arith, step, rotate_times_bound n env k' (omega arith))

-- A time that is set and lies before `now`.
abbrev pub HasPassed : ℕ → Option ℕ → Type 0
HasPassed now next = (t : ℕ) × (next ≡ some t) × (t < now)

pub due_iff : (env : Env) (next : Option ℕ) → (due env next ≡ true) ↔ HasPassed env.now next
due_iff env none = (λ h. absurd (ground arith), λ h. absurd (ground arith))
due_iff env (some t) = (λ h. (t, refl, ground arith), λ h. ground arith)

-- A key is rotated exactly when its next rotation is set and lies before the time; it then has one
-- backing key more, the old ones in their places, and is not rotated again at that time.
pub rotate_if_needed_lem :
    (env : Env) (k : AesKey)
    → let (k', rotated) = rotate_if_needed env k in
      ((rotated ≡ true) ↔ HasPassed env.now k.next_key_rotation)
      × (k'.backing_keys ≡ (
          if rotated
          then k.backing_keys ++ generate_key env k.metadata.arn 0 ∷ []
          else k.backing_keys))
      × (rotate_if_needed env k' ≡ (k', false))
unfolding rotate_if_needed
rotate_if_needed_lem env k =
    let iff = due_iff env k.next_key_rotation in
    (
      (λ h. iff.0 (ground arith), λ h. ground (arith, iff.1 h)),
      ground arith,
      ground (arith, lt-add_year env.now),
    )
