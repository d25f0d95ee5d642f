-- ===== src/Data/Keys/Stored.antt =====
-- The keys in a store, as a function of their names.
use local_kms.Prelude.{◌≡◌, Text, text_eq, Option, none, some, arith, if◌then◌else◌}
use local_kms.Config.{Env}
use local_kms.Result.{Result, ok, err, panic}
use local_kms.Cmk.{Key, get_arn}
use local_kms.Data.{DataError}
use local_kms.Data.Backend.{Backend}
use local_kms.Data.Database.{unmarshal_key, delete_object}
use local_kms.Data.Database.Writes.{Sets, delete_object-Sets, unmarshal-encode}
use local_kms.Data.Keys.{save_key, read_key}
use local_kms.Data.Keys.Saving.{save_key-Sets}

module _ (B : Backend) where
  open B use {Store, Value, get, encode_key}

  abbrev pub key_in : Option Value → Option Key
  key_in none = none
  key_in (some v) = unmarshal_key B v

  -- The key that is stored under a name, if there is one that can be read.
  unfoldable pub stored : Store → Text → Option Key
  stored d arn = key_in (get d arn)

  pub stored_of-read_key :
      (arn : Text) (d t : Store) (k : Key) → read_key B arn d ≡ (ok k, t) → stored d arn ≡ some k
  unfolding read_key stored
  stored_of-read_key arn d t k h = ground arith

  pub read_key_of-stored :
      (arn : Text) (d : Store) (k : Key) → stored d arn ≡ some k → read_key B arn d ≡ (ok k, d)
  unfolding read_key stored
  read_key_of-stored arn d k h = ground arith

  -- One name has another key, or nothing has changed.
  abbrev pub SetsKey : Store → Text → Option Key → Result DataError Unit × Store → Type 0
  SetsKey d name o (ok u, d') =
      (j : Text) → stored d' j ≡ (if text_eq name j then o else stored d j)
  SetsKey d name o (err e, d') = d' ≡ d
  SetsKey d name o (panic, d') = ⊥

  pub SetsKey-of-Sets :
      (d : Store) (name : Text) (o : Option Value) (p : Result DataError Unit × Store)
      → Sets B d name o p
      → SetsKey d name (key_in o) p
  unfolding stored
  SetsKey-of-Sets d name o (ok u, d') s = λ j. ground (arith, s j)
  SetsKey-of-Sets d name o (err e, d') s = s
  SetsKey-of-Sets d name o (panic, d') s = s

  -- A save sets the key under its own ARN, and a deletion removes a name.
  pub save_key-SetsKey :
      (env : Env) (k : Key) (d : Store) → SetsKey d (get_arn k) (some k) (save_key B env k d)
  save_key-SetsKey env k d = rw (unmarshal-encode B k) at (
      SetsKey-of-Sets d (get_arn k) (some (encode_key k)) (save_key B env k d)
        (save_key-Sets B env k d))

  pub delete_object-SetsKey :
      (env : Env) (name : Text) (d : Store) → SetsKey d name none (delete_object B env name d)
  delete_object-SetsKey env name d =
      SetsKey-of-Sets d name none (delete_object B env name d) (delete_object-Sets B env name d)
