-- ===== src/Tests/Seeds.antt =====
-- Seeding a store in memory.
use local_kms.Prelude.{◌≡◌, ◌≢◌, refl, Text, codes, text_eq, some, none, [], ◌∷◌, All, arith}
use local_kms.Result.{ok}
use local_kms.Cmk.{Key, aes, ecc, get_arn}
use local_kms.Cmk.Yaml.{Parsers}
use local_kms.Data.Database.{put_object, validate_key_data, unmarshal_key}
use local_kms.Data.DiskSpace.{check_disk_space}
use local_kms.Data.Keys.{save_key, load_key, read_key}
use local_kms.Data.Keys.Sound.{IsSound}
use local_kms.Handler.Consistency.{IsConsistent}
use local_kms.Seed.{seed, seed_keys}
use local_kms.Seed.Reading.{SeedFile}
use local_kms.Seed.Invariant.{seed-AllConsistent}
use local_kms.Seed.Stored.{Differs, seed_keys_lem}
use local_kms.Tests.Memory.{memory, Store, key}
use local_kms.Tests.Samples.{env, metadata, aes_key, alias_a1, replicate, store}
use local_kms.Tests.Handlers.{memory-Apart, store-AllConsistent}

abbrev pub no_parsers : Parsers
no_parsers = record { pem_block = λ t. none; parse_ec = λ t. none; parse_pkcs8 = λ t. none }

-- One symmetric key, whose backing key is 32 zeros, and one alias.
abbrev pub file : SeedFile
file = record {
  present = some (record {
    aes_forms =
        some (record {
          metadata = record metadata { key_id = codes "k2" };
          backing_keys = replicate 64 b'0' ∷ [];
          next_key_rotation = none;
        })
        ∷ [];
    hmac_forms = [];
    rsa_forms = [];
    ecc_forms = [];
    aliases = alias_a1 ∷ [];
  });
  old = none;
}

seed-AllConsistent_example :
    IsSound memory IsConsistent (seed memory env no_parsers (some file) store).1
seed-AllConsistent_example =
    seed-AllConsistent memory env memory-Apart no_parsers (some file) store store-AllConsistent

-- Two keys with short ARNs.
abbrev key_a : Key
key_a = aes (record aes_key { metadata = record metadata { arn = codes "a" } })

abbrev key_b : Key
key_b =
    ecc (record { metadata = record metadata { arn = codes "b" }; policy = []; private_key = [] })

abbrev two_keys : Store
two_keys = (codes "b", key key_b) ∷ (codes "a", key key_a) ∷ []

b_ne_a : codes "b" ≢ codes "a"
b_ne_a e = absurd (ground (arith, e))

two_seeded : seed_keys memory env (key_a ∷ key_b ∷ []) [] ≡ (ok 2, two_keys)
unfolding seed_keys load_key read_key save_key validate_key_data put_object check_disk_space
    unmarshal_key text_eq
two_seeded = refl

seed_keys_lem_example :
    All (λ k. read_key memory (get_arn k) two_keys ≡ (ok k, two_keys)) (key_a ∷ key_b ∷ [])
    × ((j : Text)
        → Differs memory env j (key_a ∷ key_b ∷ [])
        → memory.get two_keys j ≡ memory.get [] j)
seed_keys_lem_example =
    seed_keys_lem memory env (key_a ∷ key_b ∷ []) [] two_keys 2 ((b_ne_a, tt), (tt, tt))
      (refl, (refl, tt)) two_seeded (omega arith)
