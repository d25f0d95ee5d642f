-- ===== src/Seed.antt =====
-- src/seed.go: the keys and aliases of a YAML file, written into the database at the start.
pub mod Reading
pub mod Invariant
pub mod Stored
use local_kms.Prelude.{
  ℕ, ◌+◌, Bool, true, false, Text, ◌++◌, Option, none, some, List, [], ◌∷◌, map, if◌then◌else◌,
}
use local_kms.Config.{Env, arn_prefix}
use local_kms.Result.{Result, ok, err, panic}
use local_kms.Exec.{Exec, pure, lift, ◌>>=◌, ◌>>◌}
use local_kms.Cmk.{Key, AesKey, HmacKey, RsaKey, EccKey, aes, hmac, rsa, ecc, get_arn}
use local_kms.Cmk.Yaml.{
  Parsers, SymmetricForm, AsymmetricForm, YamlError, unmarshal_aes, unmarshal_hmac, unmarshal_rsa,
  unmarshal_ecc,
}
use local_kms.Data.{Alias, DataError, not_found}
use local_kms.Data.Backend.{Backend}
use local_kms.Data.Database.{Db}
use local_kms.Data.Keys.{load_key, save_key}
use local_kms.Data.Aliases.{load_alias, save_alias}
use local_kms.Seed.Reading.{Seed, SeedFile, read_seed}

-- What was added, of keys and of aliases.
pub record SeedReport : Type 0 where
  pub keys_added : ℕ
  pub aliases_added : ℕ

abbrev pub is_not_found : DataError → Bool
is_not_found not_found = true
is_not_found _ = false

module _ (B : Backend) where
  -- `err == leveldb.ErrNotFound`; what was loaded is not looked at.
  abbrev pub missing : {A : Type 0} → Db B A → Db B Bool
  missing m d = elim (m d).0 [
    | ok a ↦ (ok false, (m d).1)
    | err e ↦ (ok (is_not_found e), (m d).1)
    | panic ↦ (panic, (m d).1)
  ]

  -- One more if the save returned no error, which is only logged.
  abbrev pub counted : Db B Unit → Db B ℕ
  counted m d = elim (m d).0 [
    | ok u ↦ (ok 1, (m d).1)
    | err e ↦ (ok 0, (m d).1)
    | panic ↦ (panic, (m d).1)
  ]

  module _ (env : Env) where
    unfoldable pub key_is_new : Key → Db B Bool
    key_is_new k = missing (load_key B env (get_arn k))

    unfoldable pub seed_key : Key → Db B ℕ
    unfolding key_is_new
    seed_key k = do new ← key_is_new k; if new then counted (save_key B env k) else pure 0

    unfoldable pub seed_keys : List Key → Db B ℕ
    unfolding seed_key
    seed_keys [] = pure 0
    seed_keys (k ∷ ks) = do n ← seed_key k; m ← seed_keys ks; pure (n + m)

    unfoldable pub seed_alias : Alias → Db B ℕ
    seed_alias a = do
      new ← missing (load_alias B a.alias_arn)
      if new then counted (save_alias B env a) else pure 0

    unfoldable pub seed_aliases : List Alias → Db B ℕ
    unfolding seed_alias
    seed_aliases [] = pure 0
    seed_aliases (a ∷ as') = do n ← seed_alias a; m ← seed_aliases as'; pure (n + m)

    unfoldable pub import_seed : Seed → Db B SeedReport
    import_seed s = do
      n ← seed_keys s.keys
      m ← seed_aliases s.seed_aliases
      pure (record { keys_added = n; aliases_added = m })

    -- A file that cannot be read in either format adds nothing.
    abbrev pub import_read : Result YamlError Seed → Db B SeedReport
    import_read (ok s) = import_seed s
    import_read (err e) = pure (record { keys_added = 0; aliases_added = 0 })
    import_read panic = lift panic

    -- `none` where there is no path, or no file that can be read.
    unfoldable pub seed : Parsers → Option SeedFile → Db B SeedReport
    seed p none = pure (record { keys_added = 0; aliases_added = 0 })
    seed p (some f) = import_read (read_seed env p f)
