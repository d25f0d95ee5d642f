-- ===== src/Cmk/Signing.antt =====
-- Signing and verification: cmk/hash.go, and the methods Sign, HashAndSign, Verify and HashAndVerify
-- of cmk/ecc_key.go and cmk/rsa_key.go.
pub mod Roundtrip
use local_kms.Prelude.{
  ℕ, ◌≡◌, ◌==◌, not, Bool, true, false, ℤ, Text, length, Option, none, some, ◌++◌,
}
use local_kms.Config.{Env}
use local_kms.Result.{Result, ok, err, panic, ◌>>=◌, ◌>>◌, fail_if}
use local_kms.Cmk.{
  EccKey, RsaKey, SigningAlgorithm, ecdsa_sha_256, ecdsa_sha_384, ecdsa_sha_512, rsa_pss_sha_256,
  rsa_pss_sha_384, rsa_pss_sha_512, rsa_pkcs_sha_256, rsa_pkcs_sha_384, rsa_pkcs_sha_512,
}
use local_kms.Cmk.Algorithms.{supports}
use local_kms.Cmk.Errors.{
  CmkError, invalid_signing_algorithm, invalid_digest_length, unknown_signing_algorithm,
  signing_failed, malformed_signature,
}
use local_kms.Cmk.Hmac.{Hash, sha256_224, sha256, sha512_384, sha512}

abbrev pub hash_size : Hash → ℕ
hash_size sha256_224 = 28
hash_size sha256 = 32
hash_size sha512_384 = 48
hash_size sha512 = 64

-- Go's packages crypto/sha256 and crypto/sha512, crypto/ecdsa and crypto/rsa, with the bytes of the
-- private key, and encoding/asn1 on the two numbers of an ECDSA signature. A digest has the length of
-- its hash; a signature that was made verifies; and what was marshalled is read back, whatever follows.
pub record Crypto : Type 0 where
  pub digest : Hash → Text → Text
  pub length-digest : (h : Hash) (m : Text) → length (digest h m) ≡ hash_size h
  pub sign_ecdsa : Env → Text → Text → Option (ℤ × ℤ)
  pub verify_ecdsa : Text → Text → ℤ × ℤ → Bool
  pub verify-sign_ecdsa :
      (env : Env) (key d : Text) (rs : ℤ × ℤ)
      → sign_ecdsa env key d ≡ some rs
      → verify_ecdsa key d rs ≡ true
  pub marshal : ℤ × ℤ → Option Text
  pub unmarshal : Text → Option ((ℤ × ℤ) × Text)
  pub unmarshal-marshal :
      (rs : ℤ × ℤ) (t rest : Text) → marshal rs ≡ some t → unmarshal (t ++ rest) ≡ some (rs, rest)
  pub sign_pss : Env → Text → Hash → Text → Option Text
  pub verify_pss : Text → Hash → Text → Text → Bool
  pub verify-sign_pss :
      (env : Env) (key : Text) (h : Hash) (d s : Text)
      → sign_pss env key h d ≡ some s
      → verify_pss key h d s ≡ true
  pub sign_pkcs1v15 : Env → Text → Hash → Text → Option Text
  pub verify_pkcs1v15 : Text → Hash → Text → Text → Bool
  pub verify-sign_pkcs1v15 :
      (env : Env) (key : Text) (h : Hash) (d s : Text)
      → sign_pkcs1v15 env key h d ≡ some s
      → verify_pkcs1v15 key h d s ≡ true

abbrev pub or_error : {A : Type 0} → CmkError → Option A → Result CmkError A
or_error e none = err e
or_error e (some a) = ok a

-- The hash that a signing algorithm names, in `hashMessage`.
unfoldable pub message_hash : SigningAlgorithm → Result CmkError Hash
message_hash ecdsa_sha_256 = ok sha256
message_hash rsa_pss_sha_256 = ok sha256
message_hash rsa_pkcs_sha_256 = ok sha256
message_hash ecdsa_sha_384 = ok sha512_384
message_hash rsa_pss_sha_384 = ok sha512_384
message_hash rsa_pkcs_sha_384 = ok sha512_384
message_hash ecdsa_sha_512 = ok sha512
message_hash rsa_pss_sha_512 = ok sha512
message_hash rsa_pkcs_sha_512 = ok sha512
message_hash _ = err unknown_signing_algorithm

-- The length of a digest that an ECC key takes.
unfoldable pub ecc_digest_size : SigningAlgorithm → Result CmkError ℕ
ecc_digest_size ecdsa_sha_256 = ok 32
ecc_digest_size ecdsa_sha_384 = ok 48
ecc_digest_size ecdsa_sha_512 = ok 64
ecc_digest_size _ = err unknown_signing_algorithm

pub data Padding : Type 0 where
  pss pkcs1v15 : Padding

-- The hash that an RSA key hands on, with the length of its digests, and the padding.
unfoldable pub rsa_scheme : SigningAlgorithm → Result CmkError (Hash × ℕ × Padding)
rsa_scheme rsa_pss_sha_256 = ok (sha256, 32, pss)
rsa_scheme rsa_pkcs_sha_256 = ok (sha256, 32, pkcs1v15)
rsa_scheme rsa_pss_sha_384 = ok (sha512_384, 48, pss)
rsa_scheme rsa_pkcs_sha_384 = ok (sha512_384, 48, pkcs1v15)
rsa_scheme rsa_pss_sha_512 = ok (sha512, 64, pss)
rsa_scheme rsa_pkcs_sha_512 = ok (sha512, 64, pkcs1v15)
rsa_scheme _ = err unknown_signing_algorithm

module _ (C : Crypto) where
  unfoldable pub hash_message : Text → SigningAlgorithm → Result CmkError Text
  unfolding message_hash
  hash_message message algorithm = do h ← message_hash algorithm; ok (C.digest h message)

  -- The checks of the algorithm and the digest that Sign and Verify of an ECC key have in common.
  unfoldable pub check_ecc : EccKey → Text → SigningAlgorithm → Result CmkError Unit
  unfolding ecc_digest_size
  check_ecc k digest algorithm = do
    fail_if (not (supports k.metadata.signing_algorithms algorithm)) invalid_signing_algorithm
    size ← ecc_digest_size algorithm
    fail_if (not (length digest == size)) invalid_digest_length

  unfoldable pub ecc_sign : Env → EccKey → Text → SigningAlgorithm → Result CmkError Text
  unfolding check_ecc
  ecc_sign env k digest algorithm = do
    check_ecc k digest algorithm
    rs ← or_error signing_failed (C.sign_ecdsa env k.private_key digest)
    or_error signing_failed (C.marshal rs)

  unfoldable pub ecc_hash_and_sign : Env → EccKey → Text → SigningAlgorithm → Result CmkError Text
  unfolding hash_message ecc_sign
  ecc_hash_and_sign env k message algorithm = do
    digest ← hash_message message algorithm
    ecc_sign env k digest algorithm

  -- What follows the two numbers in the signature is ignored.
  unfoldable pub ecc_verify : EccKey → Text → Text → SigningAlgorithm → Result CmkError Bool
  unfolding check_ecc
  ecc_verify k signature digest algorithm = do
    check_ecc k digest algorithm
    (rs, rest) ← or_error malformed_signature (C.unmarshal signature)
    ok (C.verify_ecdsa k.private_key digest rs)

  unfoldable pub ecc_hash_and_verify :
      EccKey → Text → Text → SigningAlgorithm → Result CmkError Bool
  unfolding hash_message ecc_verify
  ecc_hash_and_verify k signature message algorithm = do
    digest ← hash_message message algorithm
    ecc_verify k signature digest algorithm

  abbrev pub sign_padded : Padding → Env → Text → Hash → Text → Option Text
  sign_padded pss = C.sign_pss
  sign_padded pkcs1v15 = C.sign_pkcs1v15

  abbrev pub verify_padded : Padding → Text → Hash → Text → Text → Bool
  verify_padded pss = C.verify_pss
  verify_padded pkcs1v15 = C.verify_pkcs1v15

  unfoldable pub rsa_sign : Env → RsaKey → Text → SigningAlgorithm → Result CmkError Text
  unfolding rsa_scheme
  rsa_sign env k digest algorithm = do
    fail_if (not (supports k.metadata.signing_algorithms algorithm)) invalid_signing_algorithm
    (h, size, padding) ← rsa_scheme algorithm
    fail_if (not (length digest == size)) invalid_digest_length
    or_error signing_failed (sign_padded padding env k.private_key h digest)

  unfoldable pub rsa_hash_and_sign : Env → RsaKey → Text → SigningAlgorithm → Result CmkError Text
  unfolding hash_message rsa_sign
  rsa_hash_and_sign env k message algorithm = do
    digest ← hash_message message algorithm
    rsa_sign env k digest algorithm

  -- Neither the algorithms of the key nor the length of the digest is looked at.
  unfoldable pub rsa_verify : RsaKey → Text → Text → SigningAlgorithm → Result CmkError Bool
  unfolding rsa_scheme
  rsa_verify k signature digest algorithm = do
    (h, size, padding) ← rsa_scheme algorithm
    ok (verify_padded padding k.private_key h digest signature)

  unfoldable pub rsa_hash_and_verify :
      RsaKey → Text → Text → SigningAlgorithm → Result CmkError Bool
  unfolding hash_message rsa_verify
  rsa_hash_and_verify k signature message algorithm = do
    digest ← hash_message message algorithm
    rsa_verify k signature digest algorithm
