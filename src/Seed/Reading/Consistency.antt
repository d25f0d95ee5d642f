-- ===== src/Seed/Reading/Consistency.antt =====
-- The keys that src/seed.go reads from its file, by the methods UnmarshalYAML of src/cmk/.
use local_kms.Prelude.{
  ◌≡◌, Bool, true, false, Text, List, [], ◌∷◌, map, ◌++◌, All, All-map, All-append, Option, none,
  some, arith,
}
use mathlib.Core.Path.{subst}
use local_kms.Config.{Env}
use local_kms.Result.{Result, ok, err, panic, calls-ok}
use local_kms.Cmk.{
  Key, KeyMetadata, AesKey, HmacKey, RsaKey, EccKey, aes, hmac, rsa, ecc, get_metadata, initialize,
  is_external,
}
use local_kms.Cmk.Generate.{with_algorithms}
use local_kms.Cmk.Hmac.{get_hmac_key_size, get_hmac_signing_algorithms}
use local_kms.Cmk.Yaml.{
  Parsers, SymmetricForm, AsymmetricForm, YamlError, unmarshal_aes, unmarshal_hmac, unmarshal_rsa,
  unmarshal_ecc, await_material, or_unsupported, check_count, decode_backing_keys,
}
use local_kms.Seed.Reading.{
  Document, OldDocument, SeedFile, Seed, unmarshal_all, read_present, read_old, read_seed, or_old,
}
use local_kms.Handler.Consistency.{IsConsistent}

-- A key fresh from YAML is enabled in the state Enabled, or waits for its material.
IsConsistent-await_material :
    (env : Env) (external : Bool) (keys : List Text) (id : Text) (m : KeyMetadata)
    → IsConsistent (await_material external keys (initialize env id m))
unfolding await_material initialize
IsConsistent-await_material env true [] id m = ground arith
IsConsistent-await_material env true (k ∷ ks) id m = ground arith
IsConsistent-await_material env false keys id m = ground arith

module _ (env : Env) where
  unmarshal_aes-IsConsistent :
      (form : Option SymmetricForm) (k : AesKey)
      → unmarshal_aes env form ≡ ok k
      → IsConsistent k.metadata
  unfolding unmarshal_aes
  unmarshal_aes-IsConsistent none k h = absurd (ground arith)
  unmarshal_aes-IsConsistent (some yk) k h =
      let m = initialize env yk.metadata.key_id yk.metadata in
      let (_, counted, h₁) = calls-ok (check_count (is_external m.origin) _) _ h in
      let (keys, decoded, h₂) = calls-ok (decode_backing_keys 32 yk.backing_keys) _ h₁ in
      let c =
        IsConsistent-await_material env (is_external m.origin) keys yk.metadata.key_id
          yk.metadata in
      ground (arith, c)

  unmarshal_hmac-IsConsistent :
      (form : Option SymmetricForm) (k : HmacKey)
      → unmarshal_hmac env form ≡ ok k
      → IsConsistent k.metadata
  unfolding unmarshal_hmac
  unmarshal_hmac-IsConsistent none k h = absurd (ground arith)
  unmarshal_hmac-IsConsistent (some yk) k h =
      let m = initialize env yk.metadata.key_id yk.metadata in
      let spec = yk.metadata.key_spec in
      let (_, counted, h₁) = calls-ok (check_count (is_external m.origin) _) _ h in
      let (size, sized, h₂) = calls-ok (or_unsupported (get_hmac_key_size spec)) _ h₁ in
      let (keys, decoded, h₃) = calls-ok (decode_backing_keys size yk.backing_keys) _ h₂ in
      let (algorithms, listed, h₄) =
        calls-ok (or_unsupported (get_hmac_signing_algorithms spec)) _ h₃ in
      let c =
        IsConsistent-await_material env (is_external m.origin) keys yk.metadata.key_id
          yk.metadata in
      ground (arith, c)

  module _ (p : Parsers) where
    unmarshal_rsa-IsConsistent :
        (form : Option AsymmetricForm) (k : RsaKey)
        → unmarshal_rsa env p form ≡ ok k
        → IsConsistent k.metadata
    unfolding unmarshal_rsa initialize with_algorithms
    unmarshal_rsa-IsConsistent none k h = absurd (ground arith)
    unmarshal_rsa-IsConsistent (some yk) k h = ground arith

    unmarshal_ecc-IsConsistent :
        (form : Option AsymmetricForm) (k : EccKey)
        → unmarshal_ecc env p form ≡ ok k
        → IsConsistent k.metadata
    unfolding unmarshal_ecc initialize
    unmarshal_ecc-IsConsistent none k h = absurd (ground arith)
    unmarshal_ecc-IsConsistent (some yk) k h = ground arith

-- Whatever a list of forms gives has what one form gives.
unmarshal_all-All :
    {A K : Type 0} (P : K → Type 0) (f : A → Result YamlError K)
    → ((x : A) (k : K) → f x ≡ ok k → P k)
    → (xs : List A) (ks : List K) → unmarshal_all f xs ≡ ok ks
    → All P ks
unfolding unmarshal_all
unmarshal_all-All P f one [] [] h = tt
unmarshal_all-All P f one [] (k ∷ ks) h = absurd (ground arith)
unmarshal_all-All P f one (x ∷ xs) ks h =
    let (k, made, h₁) = calls-ok (f x) _ h in
    let (rest, others, h₂) = calls-ok (unmarshal_all f xs) _ h₁ in
    let same : ks ≡ k ∷ rest = ground (arith, h₂) in
    rw same (one x k made, unmarshal_all-All P f one xs rest others)

abbrev pub Good : Key → Type 0
Good k = IsConsistent (get_metadata k)

module _ (env : Env) (p : Parsers) where
  keys-Good :
      (d : Document) (aes_keys : List AesKey) (hmac_keys : List HmacKey) (rsa_keys : List RsaKey)
      (ecc_keys : List EccKey)
      → unmarshal_all (unmarshal_aes env) d.aes_forms ≡ ok aes_keys
      → unmarshal_all (unmarshal_hmac env) d.hmac_forms ≡ ok hmac_keys
      → unmarshal_all (unmarshal_rsa env p) d.rsa_forms ≡ ok rsa_keys
      → unmarshal_all (unmarshal_ecc env p) d.ecc_forms ≡ ok ecc_keys
      → All Good
          (map aes aes_keys ++ (map hmac hmac_keys ++ (map rsa rsa_keys ++ map ecc ecc_keys)))
  keys-Good d aes_keys hs rs es h₁ h₂ h₃ h₄ =
      All-append Good (map aes aes_keys) _
        (All-map Good aes aes_keys
          (unmarshal_all-All _ (unmarshal_aes env) (unmarshal_aes-IsConsistent env) _ aes_keys h₁))
        (All-append Good (map hmac hs) _
          (All-map Good hmac hs
            (unmarshal_all-All _ (unmarshal_hmac env) (unmarshal_hmac-IsConsistent env) _ hs h₂))
          (All-append Good (map rsa rs) (map ecc es)
            (All-map Good rsa rs (
              unmarshal_all-All _ (unmarshal_rsa env p) (unmarshal_rsa-IsConsistent env p) _ rs h₃))
            (All-map Good ecc es (
              unmarshal_all-All _ (unmarshal_ecc env p) (unmarshal_ecc-IsConsistent env p) _ es
                h₄))))

  read_present-Good :
      (document : Option Document) (s : Seed) → read_present env p document ≡ ok s → All Good s.keys
  unfolding read_present
  read_present-Good none s h = absurd (ground arith)
  read_present-Good (some d) s h =
      let (aes_keys, r₁, h₁) = calls-ok (unmarshal_all (unmarshal_aes env) d.aes_forms) _ h in
      let (hs, r₂, h₂) = calls-ok (unmarshal_all (unmarshal_hmac env) d.hmac_forms) _ h₁ in
      let (rs, r₃, h₃) = calls-ok (unmarshal_all (unmarshal_rsa env p) d.rsa_forms) _ h₂ in
      let (es, r₄, h₄) = calls-ok (unmarshal_all (unmarshal_ecc env p) d.ecc_forms) _ h₃ in
      subst (All Good) (ground (arith, h₄)) (keys-Good d aes_keys hs rs es r₁ r₂ r₃ r₄)

  read_old-Good :
      (document : Option OldDocument) (s : Seed) → read_old env p document ≡ ok s → All Good s.keys
  unfolding read_old
  read_old-Good none s h = absurd (ground arith)
  read_old-Good (some d) s h =
      let (aes_keys, r₁, h₁) = calls-ok (unmarshal_all (unmarshal_aes env) d.old_forms) _ h in
      subst (All Good) (ground (arith, h₁)) (
        All-map Good aes aes_keys
          (unmarshal_all-All _ (unmarshal_aes env) (unmarshal_aes-IsConsistent env) _ aes_keys r₁))

  or_old-Good :
      (r r' : Result YamlError Seed) (s : Seed)
      → ((s : Seed) → r ≡ ok s → All Good s.keys)
      → ((s : Seed) → r' ≡ ok s → All Good s.keys)
      → or_old env p r r' ≡ ok s
      → All Good s.keys
  or_old-Good (ok t) r' s f g h = f s h
  or_old-Good (err e) r' s f g h = g s h
  or_old-Good panic r' s f g h = absurd (ground arith)

  pub read_seed-Good : (f : SeedFile) (s : Seed) → read_seed env p f ≡ ok s → All Good s.keys
  unfolding read_seed
  read_seed-Good f s =
      or_old-Good (read_present env p f.present) (read_old env p f.old) s
        (read_present-Good f.present) (read_old-Good f.old)
