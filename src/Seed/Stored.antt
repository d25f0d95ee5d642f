-- ===== src/Seed/Stored.antt =====
-- The keys that seed of src/seed.go adds to the database.
use local_kms.Prelude.{
  ℕ, ◌≡◌, ◌≢◌, refl, sym, ap, ◌∙◌, ◌≤◌, ◌+◌, Text, length, none, some, List, [], ◌∷◌, All, arith,
}
use local_kms.Config.{Env}
use local_kms.Result.{Result, ok, err, panic}
use local_kms.Exec.{bind-ok, steps}
use local_kms.Cmk.{Key, get_arn}
use local_kms.Data.{DataError}
use local_kms.Data.Backend.{Backend}
use local_kms.Data.Keys.{load_key, save_key, read_key}
use local_kms.Data.Keys.Saving.{read-save_key, save_key-Sets}
use local_kms.Data.Database.Writes.{Sets}
use local_kms.Seed.{counted, seed_key, seed_keys}

module _ (B : Backend) (env : Env) where
  open B use {Store, get}

  -- The seeding of one key: it is stored and nothing else has changed, or nothing has.
  data Added (k : Key) (d d' : Store) (n : ℕ) : Type 0 where
    added :
        n ≡ 1
        → read_key B (get_arn k) d' ≡ (ok k, d')
        → ((j : Text) → get_arn k ≢ j → get d' j ≡ get d j)
        → Added k d d' n
    failed : n ≡ 0 → d' ≡ d → Added k d d' n

  save-Added :
      (k : Key) (d t d' : Store) (r : Result DataError Unit) (n : ℕ)
      → save_key B env k d ≡ (r, t)
      → counted B (save_key B env k) d ≡ (ok n, d')
      → Sets B d (get_arn k) (some (B.encode_key k)) (r, t)
      → Added k d d' n
  save-Added k d t d' (ok u) n e h s =
      let saved : save_key B env k d ≡ (ok tt, d') = ground (arith, e) in
      let (written, others) = read-save_key B env k d d' saved in
      added (ground (arith, e)) written others
  save-Added k d t d' (err x) n e h s = failed (ground (arith, e)) (ground (arith, e, s))
  save-Added k d t d' panic n e h s = absurd s

  -- A key whose ARN is not in the store.
  seed_key-Added :
      (k : Key) (d d' : Store) (n : ℕ)
      → get d (get_arn k) ≡ none
      → seed_key B env k d ≡ (ok n, d')
      → Added k d d' n
  unfolding seed_key load_key read_key
  seed_key-Added k d d' n new h =
      save-Added k d (save_key B env k d).1 d' (save_key B env k d).0 n refl (ground (arith, new))
        (save_key-Sets B env k d)

  abbrev pub Absent : Store → List Key → Type 0
  Absent d = All (λ k. get d (get_arn k) ≡ none)

  abbrev pub Differs : Text → List Key → Type 0
  Differs arn = All (λ k. get_arn k ≢ arn)

  -- No two keys have the same ARN.
  abbrev pub Distinct : List Key → Type 0
  Distinct [] = Unit
  Distinct (k ∷ ks) = Differs (get_arn k) ks × Distinct ks

  Added-same :
      (k : Key) (d d' : Store) (n : ℕ) (j : Text)
      → Added k d d' n
      → get_arn k ≢ j
      → get d' j ≡ get d j
  Added-same k d d' n j (added e w o) ne = o j ne
  Added-same k d d' n j (failed e s) ne = ap (λ x. get x j) s

  Added-le : (k : Key) (d d' : Store) (n : ℕ) → Added k d d' n → n ≤ 1
  Added-le k d d' n (added e w o) = omega arith
  Added-le k d d' n (failed e s) = omega arith

  Absent-Added :
      (k : Key) (d d' : Store) (n : ℕ) (ks : List Key)
      → Added k d d' n
      → Differs (get_arn k) ks
      → Absent d ks
      → Absent d' ks
  Absent-Added k d d' n [] a f h = tt
  Absent-Added k d d' n (x ∷ ks) a (ne, f) (h, hs) =
      (Added-same k d d' n (get_arn x) a (λ e. ne (sym e)) ∙ h, Absent-Added k d d' n ks a f hs)

  -- The first key, and the rest.
  data Seeded (k : Key) (ks : List Key) (d d' : Store) (n : ℕ) : Type 0 where
    seeded :
        (a b : ℕ) (t : Store)
        → n ≡ a + b
        → Added k d t a
        → seed_keys B env ks t ≡ (ok b, d')
        → Seeded k ks d d' n

  seed_keys-Seeded :
      (k : Key) (ks : List Key) (d d' : Store) (n : ℕ)
      → get d (get_arn k) ≡ none
      → seed_keys B env (k ∷ ks) d ≡ (ok n, d')
      → Seeded k ks d d' n
  unfolding seed_keys
  seed_keys-Seeded k ks d d' n new h = elim (bind-ok _ (seed_key B env k) d h) [
    | steps a t first h₁ ↦ elim (bind-ok _ (seed_keys B env ks) t h₁) [
      | steps b u rest end ↦
          seeded a b t (ground (arith, end)) (seed_key-Added k d t a new first)
            (ground (arith, rest, end))
    ]
  ]

  -- As many keys are added as the list has, at most, and what has another name stays.
  seed_keys-le_same :
      (ks : List Key) (d d' : Store) (n : ℕ)
      → Distinct ks
      → Absent d ks
      → seed_keys B env ks d ≡ (ok n, d')
      → (n ≤ length ks) × ((j : Text) → Differs j ks → get d' j ≡ get d j)
  unfolding seed_keys
  seed_keys-le_same [] d d' n q h e = (
    ground (arith, e),
    λ j f. let same : d ≡ d' = ground (arith, e) in ap (λ x. get x j) (sym same),
  )
  seed_keys-le_same (k ∷ ks) d d' n (f, q) (h, hs) e = elim (seed_keys-Seeded k ks d d' n h e) [
    | seeded a b t sum first rest ↦
        let (le, same) = seed_keys-le_same ks t d' b q (Absent-Added k d t a ks first f hs) rest in
        (
          omega (arith, Added-le k d t a first, sum, le),
          λ j g. same j g.1 ∙ Added-same k d t a j first g.0,
        )
  ]

  read_key-same :
      (arn : Text) (d d' : Store) (k : Key)
      → get d' arn ≡ get d arn
      → read_key B arn d ≡ (ok k, d)
      → read_key B arn d' ≡ (ok k, d')
  unfolding read_key
  read_key-same arn d d' k e h = ground (arith, e)

  first-read :
      (k : Key) (ks : List Key) (d t d' : Store) (a b n : ℕ)
      → Added k d t a
      → n ≡ a + b
      → length (k ∷ ks) ≤ n
      → b ≤ length ks
      → get d' (get_arn k) ≡ get t (get_arn k)
      → read_key B (get_arn k) d' ≡ (ok k, d')
  first-read k ks d t d' a b n (added e w o) sum all le same =
      read_key-same (get_arn k) t d' k same w
  first-read k ks d t d' a b n (failed e s) sum all le same = absurd (omega arith)

  -- When keys with different ARNs, none of them in the store, are seeded and all of them are counted
  -- as added, then a read of the ARN of each gives the key, and every entry with another name is what
  -- it was.
  pub seed_keys_lem :
      (ks : List Key) (d d' : Store) (n : ℕ)
      → Distinct ks
      → Absent d ks
      → seed_keys B env ks d ≡ (ok n, d')
      → length ks ≤ n
      → All (λ k. read_key B (get_arn k) d' ≡ (ok k, d')) ks
        × ((j : Text) → Differs j ks → get d' j ≡ get d j)
  seed_keys_lem [] d d' n q h e all = (tt, (seed_keys-le_same [] d d' n q h e).1)
  seed_keys_lem (k ∷ ks) d d' n (f, q) (h, hs) e all = elim (seed_keys-Seeded k ks d d' n h e) [
    | seeded a b t sum first rest ↦
        let absent = Absent-Added k d t a ks first f hs in
        let (le, same) = seed_keys-le_same ks t d' b q absent rest in
        let later =
          seed_keys_lem ks t d' b q absent rest (omega (arith, Added-le k d t a first, sum, all)) in
        (
          (first-read k ks d t d' a b n first sum all le (same (get_arn k) f), later.0),
          (seed_keys-le_same (k ∷ ks) d d' n (f, q) (h, hs) e).1,
        )
  ]
