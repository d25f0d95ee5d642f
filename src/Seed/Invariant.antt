-- ===== src/Seed/Invariant.antt =====
-- The consistency of the keys in the database after the seeding of src/seed.go.
use local_kms.Prelude.{
  ◌≡◌, refl, Bool, true, false, ℕ, ◌+◌, Text, List, [], ◌∷◌, All, Option, none, some, if◌then◌else◌,
}
use local_kms.Config.{Env}
use local_kms.Result.{Result, ok, err, panic}
use local_kms.Exec.{Exec, pure, ◌>>=◌}
use local_kms.Exec.Hoare.{Hoare, Post, Post-state, Hoare-pure, Hoare-bind}
use local_kms.Cmk.{Key, get_arn}
use local_kms.Cmk.Yaml.{Parsers, YamlError}
use local_kms.Data.{Alias, DataError}
use local_kms.Data.Backend.{Backend}
use local_kms.Data.Keys.{load_key, save_key}
use local_kms.Data.Keys.Sound.{IsSound, save_key-IsSound, load_key-IsSound}
use local_kms.Data.Aliases.{load_alias, save_alias}
use local_kms.Exec.Preserves.{Hoare-Preserves}
use local_kms.Handler.Keeping.Storage.{Apart, Keeps-save_alias, Keeps-load_alias}
use local_kms.Handler.Consistency.{
  IsConsistent, AllConsistent, IsConsistent-renamed, IsConsistent-reset,
}
use local_kms.Seed.{
  SeedReport, missing, counted, key_is_new, seed_key, seed_keys, seed_alias, seed_aliases,
  import_seed, import_read, seed,
}
use local_kms.Seed.Reading.{Seed, SeedFile, read_seed}
use local_kms.Seed.Reading.Consistency.{Good, read_seed-Good}

module _ (B : Backend) (P : B.Store → Type 0) where
  abbrev Any : (A : Type 0) → A → Type 0
  Any A a = Unit {0}

  Post-missing :
      {A : Type 0} (Q : A → Type 0) (p : Result DataError A × B.Store) (d : B.Store)
      → Post P Q p
      → Post P (Any Bool) (missing B (λ x. p) d)
  Post-missing Q (ok a, t) d h = (h.0, tt)
  Post-missing Q (err e, t) d h = (h, tt)
  Post-missing Q (panic, t) d h = h

  Post-counted :
      (Q : Unit {0} → Type 0) (p : Result DataError Unit × B.Store) (d : B.Store)
      → Post P Q p
      → Post P (Any ℕ) (counted B (λ x. p) d)
  Post-counted Q (ok a, t) d h = (h.0, tt)
  Post-counted Q (err e, t) d h = (h, tt)
  Post-counted Q (panic, t) d h = h

  Hoare-missing :
      {A : Type 0} {Q : A → Type 0} (m : Exec B.Store DataError A)
      → Hoare P Q m
      → Hoare P (Any Bool) (missing B m)
  Hoare-missing {A} {Q} m h = record { at = λ d p. Post-missing Q (m d) d (h.at d p) }

  -- A save behind the test that there is nothing of the name.
  Hoare-added :
      {Q : Unit {0} → Type 0} (new : Exec B.Store DataError Bool) (m : Exec B.Store DataError Unit)
      → Hoare P (Any Bool) new
      → Hoare P Q m
      → Hoare P (Any ℕ) (new >>= λ b. if b then counted B m else pure 0)
  Hoare-added {Q} new m h k = Hoare-bind new _ h λ b q.
      elim b as (λ b. Hoare P (Any ℕ) (if b then counted B m else pure 0)) [
        | true ↦ record { at = λ d p. Post-counted Q (m d) d (k.at d p) }
        | false ↦ Hoare-pure 0 tt
      ]

module _ (B : Backend) (env : Env) where
  abbrev Kept : {A : Type 0} → Exec B.Store DataError A → Type 0
  Kept {A} m = Hoare (AllConsistent B env) (Any B (AllConsistent B env) A) m

  seed_key-Kept : (k : Key) → Good k → Kept (seed_key B env k)
  unfolding seed_key
  seed_key-Kept k good =
      Hoare-added B (AllConsistent B env) (key_is_new B env k) (save_key B env k)
        (Hoare-missing B (AllConsistent B env) (load_key B env (get_arn k))
          (load_key-IsSound B IsConsistent env IsConsistent-renamed IsConsistent-reset (get_arn k)))
        (save_key-IsSound B IsConsistent env k good)

  seed_keys-Kept : (ks : List Key) → All Good ks → Kept (seed_keys B env ks)
  unfolding seed_keys
  seed_keys-Kept [] good = Hoare-pure 0 tt
  seed_keys-Kept (k ∷ ks) (good, goods) =
      Hoare-bind (seed_key B env k) _ (seed_key-Kept k good) λ n q.
        Hoare-bind (seed_keys B env ks) _ (seed_keys-Kept ks goods) λ m r. Hoare-pure (n + m) tt

module _ (B : Backend) (env : Env) (apart : Apart B) where
  save_alias-Kept : (a : Alias) → Kept B env (save_alias B env a)
  save_alias-Kept a = Hoare-Preserves (save_alias B env a) (Keeps-save_alias B env apart a)

  load_alias-Kept : (arn : Text) → Kept B env (load_alias B arn)
  load_alias-Kept arn = Hoare-Preserves (load_alias B arn) (Keeps-load_alias B env arn)

  seed_aliases-Kept : (aliases : List Alias) → Kept B env (seed_aliases B env aliases)
  unfolding seed_aliases
  seed_aliases-Kept [] = Hoare-pure 0 tt
  seed_aliases-Kept (a ∷ rest) =
      Hoare-bind (seed_alias B env a) _
        (Hoare-added B (AllConsistent B env) (missing B (load_alias B a.alias_arn))
          (save_alias B env a)
          (Hoare-missing B (AllConsistent B env) (load_alias B a.alias_arn)
            (load_alias-Kept a.alias_arn))
          (save_alias-Kept a))
        λ n q.
          Hoare-bind (seed_aliases B env rest) _ (seed_aliases-Kept rest)
            λ m r. Hoare-pure (n + m) tt

  import_read-Kept :
      (r : Result YamlError Seed)
      → ((s : Seed) → r ≡ ok s → All Good s.keys)
      → Kept B env (import_read B env r)
  unfolding import_seed
  import_read-Kept (ok s) good =
      Hoare-bind (seed_keys B env s.keys) _ (seed_keys-Kept B env s.keys (good s refl)) λ n q.
        Hoare-bind (seed_aliases B env s.seed_aliases) _ (seed_aliases-Kept s.seed_aliases)
          λ m r. Hoare-pure (record { keys_added = n; aliases_added = m }) tt
  import_read-Kept (err e) good = Hoare-pure (record { keys_added = 0; aliases_added = 0 }) tt
  import_read-Kept panic good = record { at = λ d h. h }

  -- Seeding from whatever file, or from none, leaves all keys consistent, if they were: each key that
  -- is read is enabled in the state Enabled, or waits for its material.
  pub seed-AllConsistent :
      (p : Parsers) (f : Option SeedFile) (d : B.Store)
      → IsSound B IsConsistent d
      → IsSound B IsConsistent (seed B env p f d).1
  unfolding seed
  seed-AllConsistent p none d h = h
  seed-AllConsistent p (some f) d h =
      Post-state (AllConsistent B env) (Any B (AllConsistent B env) SeedReport)
        (import_read B env (read_seed env p f) d)
        ((import_read-Kept (read_seed env p f) (read_seed-Good env p f)).at d h)
