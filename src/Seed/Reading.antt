-- ===== src/Seed/Reading.antt =====
-- How seed of src/seed.go reads its file: in the present format, or else in the old one.
pub mod Consistency
use local_kms.Prelude.{Text, ◌++◌, Option, none, some, List, [], ◌∷◌, map}
use local_kms.Config.{Env, arn_prefix}
use local_kms.Result.{Result, ok, err, panic, ◌>>=◌}
use local_kms.Cmk.{Key, aes, hmac, rsa, ecc}
use local_kms.Cmk.Yaml.{
  Parsers, SymmetricForm, AsymmetricForm, YamlError, undecoded, unmarshal_aes, unmarshal_hmac,
  unmarshal_rsa, unmarshal_ecc, or_yaml,
}
use local_kms.Data.{Alias}

-- The document as the library yaml takes it apart: in the present format and in the old one, where it
-- has their shape. Each key is handed to its method UnmarshalYAML.
pub record Document : Type 0 where
  pub aes_forms : List (Option SymmetricForm)
  pub hmac_forms : List (Option SymmetricForm)
  pub rsa_forms : List (Option AsymmetricForm)
  pub ecc_forms : List (Option AsymmetricForm)
  pub aliases : List Alias

pub record OldDocument : Type 0 where
  pub old_forms : List (Option SymmetricForm)
  pub old_aliases : List Alias

pub record SeedFile : Type 0 where
  pub present : Option Document
  pub old : Option OldDocument

-- The keys in the order in which they are saved, and the aliases.
pub record Seed : Type 0 where
  pub keys : List Key
  pub seed_aliases : List Alias

module _ {A K : Type 0} where
  -- The first error ends the reading.
  unfoldable pub unmarshal_all : (A → Result YamlError K) → List A → Result YamlError (List K)
  unmarshal_all f [] = ok []
  unmarshal_all f (x ∷ xs) = do k ← f x; ks ← unmarshal_all f xs; ok (k ∷ ks)

-- The ARN of an alias in the file is not taken from it.
unfoldable pub with_arn : Env → Alias → Alias
with_arn env a = record a { alias_arn = arn_prefix env ++ a.alias_name }

module _ (env : Env) (p : Parsers) where
  unfoldable pub read_present : Option Document → Result YamlError Seed
  unfolding unmarshal_all with_arn
  read_present document = do
    d ← or_yaml undecoded document
    aes_keys ← unmarshal_all (unmarshal_aes env) d.aes_forms
    hmac_keys ← unmarshal_all (unmarshal_hmac env) d.hmac_forms
    rsa_keys ← unmarshal_all (unmarshal_rsa env p) d.rsa_forms
    ecc_keys ← unmarshal_all (unmarshal_ecc env p) d.ecc_forms
    ok (record {
      keys = map aes aes_keys ++ (map hmac hmac_keys ++ (map rsa rsa_keys ++ map ecc ecc_keys));
      seed_aliases = map (with_arn env) d.aliases;
    })

  unfoldable pub read_old : Option OldDocument → Result YamlError Seed
  unfolding unmarshal_all with_arn
  read_old document = do
    d ← or_yaml undecoded document
    aes_keys ← unmarshal_all (unmarshal_aes env) d.old_forms
    ok (record { keys = map aes aes_keys; seed_aliases = map (with_arn env) d.old_aliases })

  -- An error in the present format makes the program try the old one.
  abbrev pub or_old : Result YamlError Seed → Result YamlError Seed → Result YamlError Seed
  or_old (ok s) other = ok s
  or_old (err e) other = other
  or_old panic other = panic

  unfoldable pub read_seed : SeedFile → Result YamlError Seed
  unfolding read_present read_old
  read_seed f = or_old (read_present f.present) (read_old f.old)
