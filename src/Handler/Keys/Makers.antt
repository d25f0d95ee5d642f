-- ===== src/Handler/Keys/Makers.antt =====
-- The metadata of the new keys that handler/create_key.go makes.
use local_kms.Prelude.{◌≡◌, refl, Text, Option, none, some, arith}
use local_kms.Config.{Env}
use local_kms.Result.{Result, ok, err, panic}
use local_kms.Cmk.{
  Key, KeyMetadata, KeySpec, KeyUsage, KeyOrigin, HmacKey, EccKey, RsaKey, rsa, ecc, hmac,
  get_metadata, initialize,
}
use local_kms.Cmk.Errors.{CmkError}
use local_kms.Cmk.Aes.{new_aes_key}
use local_kms.Cmk.Hmac.{new_hmac_key}
use local_kms.Cmk.Generate.{Generators, new_ecc_key, new_rsa_key}
use local_kms.Handler.Consistency.{IsConsistent}
use local_kms.Handler.Keys.{
  empty_metadata, describe, apply_origin, or_internal, make_key, make_aes, make_ecc, make_rsa,
  make_hmac,
}

module _ (g : Generators) (env : Env) (m : KeyMetadata) (policy : Text) (c : IsConsistent m) where
  aes-IsConsistent : (origin : KeyOrigin) → IsConsistent (new_aes_key env m policy origin).metadata
  unfolding new_aes_key
  aes-IsConsistent origin = record { on = c.on; off = c.off; dated = c.dated }

  hmac-IsConsistent :
      (spec : KeySpec) (origin : KeyOrigin) (k : HmacKey)
      → new_hmac_key env spec m policy origin ≡ ok k
      → IsConsistent k.metadata
  unfolding new_hmac_key
  hmac-IsConsistent spec origin k h = ground arith

  ecc-IsConsistent :
      (spec : KeySpec) (k : EccKey)
      → new_ecc_key g env spec m policy ≡ ok k
      → IsConsistent k.metadata
  unfolding new_ecc_key
  ecc-IsConsistent spec k h = ground arith

  rsa-IsConsistent :
      (spec : KeySpec) (usage : KeyUsage) (k : RsaKey)
      → new_rsa_key g env spec usage m policy ≡ ok k
      → IsConsistent k.metadata
  unfolding new_rsa_key
  rsa-IsConsistent spec usage k h = ground arith

  make_aes-IsConsistent :
      (usage : KeyUsage) (k : Key)
      → make_aes g env m policy usage ≡ ok k
      → IsConsistent (get_metadata k)
  unfolding make_aes
  make_aes-IsConsistent usage k h = ground (arith, aes-IsConsistent m.origin)

  of_or_internal :
      {A : Type 0} (f : A → Key) (r : Result CmkError A) (k : Key)
      → or_internal f r ≡ ok k
      → (a : A) × (r ≡ ok a) × (k ≡ f a)
  of_or_internal f (ok a) k h = (a, refl, ground arith)
  of_or_internal f (err e) k h = absurd (ground arith)
  of_or_internal f panic k h = absurd (ground arith)

  make_ecc-IsConsistent :
      (spec : KeySpec) (usage : KeyUsage) (k : Key)
      → make_ecc g env m policy spec usage ≡ ok k
      → IsConsistent (get_metadata k)
  unfolding make_ecc
  make_ecc-IsConsistent spec KeyUsage.sign_verify k h =
      let (a, e, same) = of_or_internal ecc (new_ecc_key g env spec m policy) k h in
      rw same (ecc-IsConsistent spec a e)
  make_ecc-IsConsistent spec _ k h = absurd (ground arith)

  make_rsa-IsConsistent :
      (spec : KeySpec) (usage : KeyUsage) (k : Key)
      → make_rsa g env m policy spec usage ≡ ok k
      → IsConsistent (get_metadata k)
  unfolding make_rsa
  make_rsa-IsConsistent spec KeyUsage.sign_verify k h =
      let (a, e, same) =
        of_or_internal rsa (new_rsa_key g env spec KeyUsage.sign_verify m policy) k h in
      rw same (rsa-IsConsistent spec KeyUsage.sign_verify a e)
  make_rsa-IsConsistent spec KeyUsage.encrypt_decrypt k h =
      let (a, e, same) =
        of_or_internal rsa (new_rsa_key g env spec KeyUsage.encrypt_decrypt m policy) k h in
      rw same (rsa-IsConsistent spec KeyUsage.encrypt_decrypt a e)
  make_rsa-IsConsistent spec _ k h = absurd (ground arith)

  make_hmac-IsConsistent :
      (spec : KeySpec) (usage : KeyUsage) (k : Key)
      → make_hmac g env m policy spec usage ≡ ok k
      → IsConsistent (get_metadata k)
  unfolding make_hmac
  make_hmac-IsConsistent spec KeyUsage.generate_verify_mac k h =
      let (a, e, same) = of_or_internal hmac (new_hmac_key env spec m policy m.origin) k h in
      rw same (hmac-IsConsistent spec m.origin a e)
  make_hmac-IsConsistent spec _ k h = absurd (ground arith)

  pub make_key-IsConsistent :
      (spec : KeySpec) (usage : KeyUsage) (k : Key)
      → make_key g env m policy spec usage ≡ ok k
      → IsConsistent (get_metadata k)
  unfolding make_key
  make_key-IsConsistent KeySpec.symmetric_default usage k h = make_aes-IsConsistent usage k h
  make_key-IsConsistent KeySpec.ecc_nist_p256 usage k h =
      make_ecc-IsConsistent KeySpec.ecc_nist_p256 usage k h
  make_key-IsConsistent KeySpec.ecc_nist_p384 usage k h =
      make_ecc-IsConsistent KeySpec.ecc_nist_p384 usage k h
  make_key-IsConsistent KeySpec.ecc_nist_p521 usage k h =
      make_ecc-IsConsistent KeySpec.ecc_nist_p521 usage k h
  make_key-IsConsistent KeySpec.ecc_secp256k1 usage k h =
      make_ecc-IsConsistent KeySpec.ecc_secp256k1 usage k h
  make_key-IsConsistent KeySpec.rsa_2048 usage k h =
      make_rsa-IsConsistent KeySpec.rsa_2048 usage k h
  make_key-IsConsistent KeySpec.rsa_3072 usage k h =
      make_rsa-IsConsistent KeySpec.rsa_3072 usage k h
  make_key-IsConsistent KeySpec.rsa_4096 usage k h =
      make_rsa-IsConsistent KeySpec.rsa_4096 usage k h
  make_key-IsConsistent KeySpec.hmac_224 usage k h =
      make_hmac-IsConsistent KeySpec.hmac_224 usage k h
  make_key-IsConsistent KeySpec.hmac_256 usage k h =
      make_hmac-IsConsistent KeySpec.hmac_256 usage k h
  make_key-IsConsistent KeySpec.hmac_384 usage k h =
      make_hmac-IsConsistent KeySpec.hmac_384 usage k h
  make_key-IsConsistent KeySpec.hmac_512 usage k h =
      make_hmac-IsConsistent KeySpec.hmac_512 usage k h
  make_key-IsConsistent _ usage k h = absurd (ground arith)

pub new-IsConsistent :
    (env : Env) (id : Text) (d : Option Text)
    → IsConsistent (describe d (initialize env id empty_metadata))
unfolding initialize
new-IsConsistent env id none = ground arith
new-IsConsistent env id (some d) = ground arith

pub apply_origin-IsConsistent :
    (origin : KeyOrigin) (spec : KeySpec) (m m' : KeyMetadata)
    → IsConsistent m
    → apply_origin origin spec m ≡ ok m'
    → IsConsistent m'
unfolding apply_origin
apply_origin-IsConsistent origin spec m m' c h = ground arith
