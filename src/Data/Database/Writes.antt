-- ===== src/Data/Database/Writes.antt =====
-- What the guarded writes and deletions of data/database.go leave behind.
use local_kms.Prelude.{
  ◌≡◌, refl, Text, text_eq, Option, none, some, inl, inr, arith, Option-cases, if◌then◌else◌,
}
use local_kms.Config.{Env}
use local_kms.Result.{Result, ok, err, panic}
use local_kms.Cmk.{Key, aes, rsa, ecc, hmac}
use local_kms.Data.{DataError}
use local_kms.Data.Backend.{Backend}
use local_kms.Data.DiskSpace.{check_disk_space}
use local_kms.Data.Database.{commit, put_object, delete_object, unmarshal_key}

module _ (B : Backend) where
  open B use {Store, Value, get, put, delete, encode_key}

  -- One entry changed, to `o`; or the call failed and nothing changed.
  abbrev pub Sets : Store → Text → Option Value → Result DataError Unit × Store → Type 0
  Sets d name o (ok u, d') = (j : Text) → get d' j ≡ (if text_eq name j then o else get d j)
  Sets d name o (err e, d') = d' ≡ d
  Sets d name o (panic, d') = ⊥

  commit-put :
      (d : Store) (name : Text) (v : Value) (o : Option Store)
      → put d name v ≡ o
      → Sets d name (some v) (commit B o d)
  commit-put d name v none h = refl
  commit-put d name v (some d') h = λ j. B.get-put j h

  commit-delete :
      (d : Store) (name : Text) (o : Option Store)
      → delete d name ≡ o
      → Sets d name none (commit B o d)
  commit-delete d name none h = refl
  commit-delete d name (some d') h = λ j. B.get-delete j h

  pub put_object-Sets :
      (env : Env) (name : Text) (v : Value) (d : Store)
      → Sets d name (some v) (put_object B env name v d)
  unfolding put_object
  put_object-Sets env name v d = elim (Option-cases (check_disk_space env)) [
    | inl fine ↦ rw fine (commit-put d name v (put d name v) refl)
    | inr (e, failed) ↦ rw failed refl
  ]

  pub delete_object-Sets :
      (env : Env) (name : Text) (d : Store) → Sets d name none (delete_object B env name d)
  unfolding delete_object
  delete_object-Sets env name d = elim (Option-cases (check_disk_space env)) [
    | inl fine ↦ rw fine (commit-delete d name (delete d name) refl)
    | inr (e, failed) ↦ rw failed refl
  ]

  pub unmarshal-encode : (k : Key) → unmarshal_key B (encode_key k) ≡ some k
  unfolding unmarshal_key
  unmarshal-encode (aes k) = ground (arith, B.type-encode (aes k), B.aes-encode k)
  unmarshal-encode (rsa k) = ground (arith, B.type-encode (rsa k), B.rsa-encode k)
  unmarshal-encode (ecc k) = ground (arith, B.type-encode (ecc k), B.ecc-encode k)
  unmarshal-encode (hmac k) = ground (arith, B.type-encode (hmac k), B.hmac-encode k)
