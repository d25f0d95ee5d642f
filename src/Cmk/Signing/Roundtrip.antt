-- ===== src/Cmk/Signing/Roundtrip.antt =====
-- The signatures that the keys of cmk/ecc_key.go and cmk/rsa_key.go make, and the digests that they
-- take.
use local_kms.Prelude.{◌≡◌, ◌≢◌, true, Text, ◌++◌, arith, Option-cases, inl, inr}
use local_kms.Config.{Env}
use local_kms.Result.{ok, err, calls-ok}
use local_kms.Cmk.{
  EccKey, RsaKey, SigningAlgorithm, ecdsa_sha_256, ecdsa_sha_384, ecdsa_sha_512, rsa_pss_sha_256,
  rsa_pss_sha_384, rsa_pss_sha_512, rsa_pkcs_sha_256, rsa_pkcs_sha_384, rsa_pkcs_sha_512,
}
use local_kms.Cmk.Errors.{invalid_digest_length}
use local_kms.Cmk.Hmac.{sha256, sha512_384, sha512}
use local_kms.Cmk.Signing.{
  Crypto, ecc_sign, ecc_verify, ecc_hash_and_sign, ecc_hash_and_verify, rsa_sign, rsa_verify,
  rsa_hash_and_sign, rsa_hash_and_verify, hash_message,
}

module _ (C : Crypto) (env : Env) where
  pub ecc_verify-ecc_sign :
      (k : EccKey) (digest s rest : Text) (a : SigningAlgorithm)
      → ecc_sign C env k digest a ≡ ok s
      → ecc_verify C k (s ++ rest) digest a ≡ ok true
  unfolding ecc_sign ecc_verify
  ecc_verify-ecc_sign k digest s rest a h =
      elim (Option-cases (C.sign_ecdsa env k.private_key digest)) [
        | inl failed ↦ absurd (ground arith)
        | inr (rs, made) ↦
            ground (
              arith,
              C.verify-sign_ecdsa env k.private_key digest rs,
              C.unmarshal-marshal rs s rest,
            )
      ]

  pub rsa_verify-rsa_sign :
      (k : RsaKey) (digest s : Text) (a : SigningAlgorithm)
      → rsa_sign C env k digest a ≡ ok s
      → rsa_verify C k s digest a ≡ ok true
  unfolding rsa_sign rsa_verify
  rsa_verify-rsa_sign k digest s rsa_pss_sha_256 h =
      ground (arith, C.verify-sign_pss env k.private_key sha256 digest s)
  rsa_verify-rsa_sign k digest s rsa_pss_sha_384 h =
      ground (arith, C.verify-sign_pss env k.private_key sha512_384 digest s)
  rsa_verify-rsa_sign k digest s rsa_pss_sha_512 h =
      ground (arith, C.verify-sign_pss env k.private_key sha512 digest s)
  rsa_verify-rsa_sign k digest s rsa_pkcs_sha_256 h =
      ground (arith, C.verify-sign_pkcs1v15 env k.private_key sha256 digest s)
  rsa_verify-rsa_sign k digest s rsa_pkcs_sha_384 h =
      ground (arith, C.verify-sign_pkcs1v15 env k.private_key sha512_384 digest s)
  rsa_verify-rsa_sign k digest s rsa_pkcs_sha_512 h =
      ground (arith, C.verify-sign_pkcs1v15 env k.private_key sha512 digest s)
  rsa_verify-rsa_sign k digest s _ h = absurd (ground arith)

  pub ecc_hash_and_verify-ecc_hash_and_sign :
      (k : EccKey) (m s rest : Text) (a : SigningAlgorithm)
      → ecc_hash_and_sign C env k m a ≡ ok s
      → ecc_hash_and_verify C k (s ++ rest) m a ≡ ok true
  unfolding ecc_hash_and_sign ecc_hash_and_verify
  ecc_hash_and_verify-ecc_hash_and_sign k m s rest a h =
      let (digest, hashed, made) = calls-ok (hash_message C m a) (λ x. ecc_sign C env k x a) h in
      rw hashed (ecc_verify-ecc_sign k digest s rest a made)

  pub rsa_hash_and_verify-rsa_hash_and_sign :
      (k : RsaKey) (m s : Text) (a : SigningAlgorithm)
      → rsa_hash_and_sign C env k m a ≡ ok s
      → rsa_hash_and_verify C k s m a ≡ ok true
  unfolding rsa_hash_and_sign rsa_hash_and_verify
  rsa_hash_and_verify-rsa_hash_and_sign k m s a h =
      let (digest, hashed, made) = calls-ok (hash_message C m a) (λ x. rsa_sign C env k x a) h in
      rw hashed (rsa_verify-rsa_sign k digest s a made)

  pub ecc_hash_and_sign_takes :
      (k : EccKey) (m : Text) (a : SigningAlgorithm)
      → ecc_hash_and_sign C env k m a ≢ err invalid_digest_length
  unfolding ecc_hash_and_sign
  ecc_hash_and_sign_takes k m ecdsa_sha_256 h = ground (arith, C.length-digest sha256 m)
  ecc_hash_and_sign_takes k m ecdsa_sha_384 h = ground (arith, C.length-digest sha512_384 m)
  ecc_hash_and_sign_takes k m ecdsa_sha_512 h = ground (arith, C.length-digest sha512 m)
  ecc_hash_and_sign_takes k m _ h = ground arith

  pub rsa_hash_and_sign_takes :
      (k : RsaKey) (m : Text) (a : SigningAlgorithm)
      → rsa_hash_and_sign C env k m a ≢ err invalid_digest_length
  unfolding rsa_hash_and_sign
  rsa_hash_and_sign_takes k m rsa_pss_sha_256 h = ground (arith, C.length-digest sha256 m)
  rsa_hash_and_sign_takes k m rsa_pss_sha_384 h = ground (arith, C.length-digest sha512_384 m)
  rsa_hash_and_sign_takes k m rsa_pss_sha_512 h = ground (arith, C.length-digest sha512 m)
  rsa_hash_and_sign_takes k m rsa_pkcs_sha_256 h = ground (arith, C.length-digest sha256 m)
  rsa_hash_and_sign_takes k m rsa_pkcs_sha_384 h = ground (arith, C.length-digest sha512_384 m)
  rsa_hash_and_sign_takes k m rsa_pkcs_sha_512 h = ground (arith, C.length-digest sha512 m)
  rsa_hash_and_sign_takes k m _ h = ground arith
