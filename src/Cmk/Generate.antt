-- ===== src/Cmk/Generate.antt =====
-- NewEccKey of cmk/ecc_key.go and NewRsaKey of cmk/rsa_key.go.
use local_kms.Prelude.{ℕ, Text, Option, none, some, [], ◌∷◌}
use local_kms.Config.{Env}
use local_kms.Result.{Result, ok, err, ◌>>=◌}
use local_kms.Cmk.{
  KeyMetadata, KeySpec, KeyUsage, EccKey, RsaKey, SigningAlgorithm, ecc_nist_p256, ecc_nist_p384,
  ecc_nist_p521, ecc_secp256k1, rsa_2048, rsa_3072, rsa_4096, ecdsa_sha_256, ecdsa_sha_384,
  ecdsa_sha_512, rsa_pss_sha_256, rsa_pss_sha_384, rsa_pss_sha_512, rsa_pkcs_sha_256,
  rsa_pkcs_sha_384, rsa_pkcs_sha_512, oaep_sha_1, oaep_sha_256,
}
use local_kms.Cmk.Errors.{CmkError, unsupported_spec, unsupported_usage, generation_failed}

pub data Curve : Type 0 where
  p256 p384 p521 s256 : Curve

-- `ecdsa.GenerateKey` and `rsa.GenerateKey` of Go's packages crypto/ecdsa and crypto/rsa: the bytes of
-- a private key, for a curve and for a number of bits.
pub record Generators : Type 0 where
  pub generate_ecdsa : Env → Curve → Option Text
  pub generate_rsa : Env → ℕ → Option Text

abbrev pub or_failed : Option Text → Result CmkError Text
or_failed none = err generation_failed
or_failed (some key) = ok key

unfoldable pub curve_of : KeySpec → Result CmkError (Curve × SigningAlgorithm)
curve_of ecc_nist_p256 = ok (p256, ecdsa_sha_256)
curve_of ecc_nist_p384 = ok (p384, ecdsa_sha_384)
curve_of ecc_nist_p521 = ok (p521, ecdsa_sha_512)
curve_of ecc_secp256k1 = ok (s256, ecdsa_sha_256)
curve_of _ = err unsupported_spec

unfoldable pub new_ecc_key :
    Generators → Env → KeySpec → KeyMetadata → Text → Result CmkError EccKey
unfolding curve_of
new_ecc_key g env spec m policy = do
  (curve, algorithm) ← curve_of spec
  key ← or_failed (g.generate_ecdsa env curve)
  ok (record {
    metadata = record m {
      key_usage = KeyUsage.sign_verify;
      key_spec = spec;
      customer_master_key_spec = spec;
      signing_algorithms = algorithm ∷ [];
    };
    policy = policy;
    private_key = key;
  })

unfoldable pub bits_of : KeySpec → Result CmkError ℕ
bits_of rsa_2048 = ok 2048
bits_of rsa_3072 = ok 3072
bits_of rsa_4096 = ok 4096
bits_of _ = err unsupported_spec

-- The usage decides which algorithms the metadata name; the others stay.
unfoldable pub with_algorithms : KeyUsage → KeyMetadata → Result CmkError KeyMetadata
with_algorithms KeyUsage.sign_verify m = ok (record m {
  signing_algorithms =
      rsa_pss_sha_256 ∷ rsa_pss_sha_384 ∷ rsa_pss_sha_512 ∷ rsa_pkcs_sha_256 ∷ rsa_pkcs_sha_384
      ∷ rsa_pkcs_sha_512 ∷ [];
})
with_algorithms KeyUsage.encrypt_decrypt m =
    ok (record m { encryption_algorithms = oaep_sha_1 ∷ oaep_sha_256 ∷ [] })
with_algorithms _ m = err unsupported_usage

unfoldable pub new_rsa_key :
    Generators → Env → KeySpec → KeyUsage → KeyMetadata → Text → Result CmkError RsaKey
unfolding bits_of with_algorithms
new_rsa_key g env spec usage m policy = do
  bits ← bits_of spec
  key ← or_failed (g.generate_rsa env bits)
  m' ←
      with_algorithms usage
        (record m { key_usage = usage; key_spec = spec; customer_master_key_spec = spec })
  ok (record { metadata = m'; policy = policy; private_key = key })
