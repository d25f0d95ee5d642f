-- ===== src/Data/Keys.antt =====
-- data/database_key.go: saving, loading and listing keys. A load rotates, deletes or resets a key
-- whose time has come.
pub mod Saving
pub mod Loading
pub mod Stored
pub mod Sound
pub mod Again
pub mod Loaded
pub mod Fresh
use local_kms.Prelude.{
  ℕ, zero, suc, ◌*◌, Bool, true, false, not, ◌&&◌, ◌==◌, ltb, Text, codes, contains, Option, none,
  some, List, [], ◌∷◌, if◌then◌else◌,
}
use local_kms.Config.{Env}
use local_kms.Clock.{second, unix}
use local_kms.Result.{Result, ok, err, panic}
use local_kms.Exec.{Exec, pure, raise, lift, check, gets, ◌>>=◌, ◌>>◌}
use local_kms.Cmk.{
  Key, KeyMetadata, KeySpec, KeyState, ExpirationModel, aes, rsa, ecc, hmac, get_metadata,
  set_metadata, get_arn, is_pending_deletion,
}
use local_kms.Cmk.Aes
use local_kms.Cmk.Hmac
use local_kms.Data.{DataError, not_found, corrupted}
use local_kms.Data.Backend.{Backend}
use local_kms.Data.Database.{
  Db, put_object, delete_object, unmarshal_key, validate_key_data, or_err,
}
use local_kms.Data.Listing.{Marker, waits, finish}

-- The key that a rotation leaves, and whether it did rotate; other kinds do not rotate.
unfoldable pub rotate : Env → Key → Key × Bool
rotate env (aes k) = let (k', rotated) = Aes.rotate_if_needed env k in (aes k', rotated)
rotate env (hmac k) = let (k', rotated) = Hmac.rotate_if_needed env k in (hmac k', rotated)
rotate env (rsa k) = (rsa k, false)
rotate env (ecc k) = (ecc k, false)

abbrev pub is_unset : KeySpec → Bool
is_unset KeySpec.unset = true
is_unset _ = false

-- Keys of old versions have only the old name of their spec.
unfoldable pub migrate : Key → Key
migrate k =
    let m = get_metadata k in
    if is_unset m.key_spec
    then set_metadata k (record m { key_spec = m.customer_master_key_spec })
    else k

-- The imported key material has expired.
unfoldable pub is_expired : Env → KeyMetadata → Bool
is_expired env m = not (m.valid_to == 0) && ltb m.valid_to (unix env.now * second)

unfoldable pub reset_import : KeyMetadata → KeyMetadata
reset_import m = record m {
  enabled = false;
  key_state = KeyState.pending_import;
  expiration_model = ExpirationModel.unset;
  valid_to = 0;
}

module _ (B : Backend) where
  open B use {Store, Value, get, iterate, iterator_error, encode_key}

  unfoldable pub save_key : Env → Key → Db B Unit
  save_key env k = do check (validate_key_data B k); put_object B env (get_arn k) (encode_key k)

  -- `if rotated { d.SaveKey(k) }`
  abbrev pub save_if : Bool → Env → Key → Db B Unit
  save_if true env k = save_key env k
  save_if false env k = pure tt

  unfoldable pub expire : Env → Key → Db B Key
  unfolding reset_import
  expire env k =
      if is_expired env (get_metadata k)
      then (do let k' = set_metadata k (reset_import (get_metadata k)); save_key env k'; pure k')
      else pure k

  unfoldable pub read_key : Text → Db B Key
  read_key arn = do
    encoded ← (λ d. (or_err B (get d arn) not_found, d))
    lift (or_err B (unmarshal_key B encoded) corrupted)

  -- A key past its deletion date is deleted, and is not found.
  unfoldable pub settle : Env → Text → Key → Db B Key
  unfolding expire
  settle env arn k =
      if is_pending_deletion env (get_metadata k)
      then (do delete_object B env arn; raise not_found)
      else expire env k

  unfoldable pub load_key : Env → Text → Db B Key
  load_key env arn = do
    k ← read_key arn
    let rotated = rotate env k
    save_if rotated.1 env rotated.0
    settle env arn (migrate rotated.0)

  -- `d.DeleteObject`, whose error the loop ignores
  abbrev try_delete : Env → Text → Store → Store
  try_delete env arn d = (delete_object B env arn d).1

  -- The loop of `ListKeys`: how many keys are still wanted, whether the marker is passed, and the
  -- rest of the iterator.
  unfoldable pub list_keys_from :
      Env → Marker → ℕ → Bool → List (Text × Value) → Db B (List Key × Bool)
  list_keys_from env marker n past [] = pure ([], past)
  list_keys_from env marker zero past (e ∷ es) = pure ([], past)
  list_keys_from env marker (suc n) past ((name, v) ∷ es) =
      let skip = list_keys_from env marker (suc n) past es in
      let next = list_keys_from env marker (suc n) true es in
      let more = list_keys_from env marker n true es in
      if contains (codes "/tag/") name then skip else if waits marker past name then skip else (do
        k ← lift (or_err B (unmarshal_key B v) corrupted)
        if is_pending_deletion env (get_metadata k)
            then (λ d. next (try_delete env (get_arn k) d))
            else (do (ks, past') ← more; pure (k ∷ ks, past')))

  unfoldable pub list_keys : Env → Text → ℕ → Marker → Db B (List Key)
  unfolding list_keys_from
  list_keys env prefix limit marker d =
      (do
        found ← list_keys_from env marker limit false (iterate d prefix)
        lift (finish (iterator_error d prefix) marker found))
        d
