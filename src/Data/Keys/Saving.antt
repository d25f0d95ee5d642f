-- ===== src/Data/Keys/Saving.antt =====
-- SaveKey of data/database_key.go, and the read with which LoadKey begins.
use local_kms.Prelude.{
  ◌≡◌, refl, ◌≢◌, false, Text, text_eq_refl, text_eq_iff, some, inl, inr, [], arith, Option-cases,
}
use local_kms.Config.{Env}
use local_kms.Result.{ok, err}
use local_kms.Cmk.{Key, aes, get_arn, AesKey, is_external}
use local_kms.Data.{invalid}
use local_kms.Data.Backend.{Backend}
use local_kms.Data.Database.{validate_key_data}
use local_kms.Data.Database.Writes.{Sets, put_object-Sets, unmarshal-encode}
use local_kms.Data.Keys.{save_key, read_key}

-- A read does not change the store.
pub read_key_same : (B : Backend) (arn : Text) (d : B.Store) → (read_key B arn d).1 ≡ d
unfolding read_key
read_key_same B arn d = ground arith

module _ (B : Backend) where
  open B use {Store, Value, get, encode_key}

  pub save_key-Sets :
      (env : Env) (k : Key) (d : Store)
      → Sets B d (get_arn k) (some (encode_key k)) (save_key B env k d)
  unfolding save_key
  save_key-Sets env k d = elim (Option-cases (validate_key_data B k)) [
    | inl fine ↦ rw fine (put_object-Sets B env (get_arn k) (encode_key k) d)
    | inr (e, failed) ↦ rw failed refl
  ]

  -- After a save that returns no error, a read of the key's ARN gives the key, and every other entry
  -- is what it was.
  pub read-save_key :
      (env : Env) (k : Key) (d d' : Store)
      → save_key B env k d ≡ (ok tt, d')
      → (read_key B (get_arn k) d' ≡ (ok k, d')) × ((j : Text) → get_arn k ≢ j → get d' j ≡ get d j)
  unfolding read_key
  read-save_key env k d d' h =
      let written = rw h at (save_key-Sets env k d) in
      (
        ground (arith, written (get_arn k), text_eq_refl (get_arn k), unmarshal-encode B k),
        λ j ne. ground (arith, written j, text_eq_iff (get_arn k) j),
      )

  -- A symmetric key of KMS's own origin that has no key material is never written.
  pub save_key_refuses :
      (env : Env) (k : AesKey) (d : Store)
      → k.backing_keys ≡ []
      → is_external k.metadata.origin ≡ false
      → save_key B env (aes k) d ≡ (err invalid, d)
  unfolding save_key validate_key_data
  save_key_refuses env k d e o = ground arith
