-- ===== src/Cmk/Algorithms.antt =====
-- The names of signing algorithms in cmk/key.go, and `slices.Contains` on a list of them.
use local_kms.Prelude.{Bool, false, ◌||◌, Text, text_eq, codes, List, [], ◌∷◌}
use local_kms.Cmk.{
  SigningAlgorithm, ecdsa_sha_256, ecdsa_sha_384, ecdsa_sha_512, rsa_pss_sha_256, rsa_pss_sha_384,
  rsa_pss_sha_512, rsa_pkcs_sha_256, rsa_pkcs_sha_384, rsa_pkcs_sha_512, hmac_sha_224, hmac_sha_256,
  hmac_sha_384, hmac_sha_512,
}

abbrev pub algorithm_text : SigningAlgorithm → Text
algorithm_text ecdsa_sha_256 = codes "ECDSA_SHA_256"
algorithm_text ecdsa_sha_384 = codes "ECDSA_SHA_384"
algorithm_text ecdsa_sha_512 = codes "ECDSA_SHA_512"
algorithm_text rsa_pss_sha_256 = codes "RSASSA_PSS_SHA_256"
algorithm_text rsa_pss_sha_384 = codes "RSASSA_PSS_SHA_384"
algorithm_text rsa_pss_sha_512 = codes "RSASSA_PSS_SHA_512"
algorithm_text rsa_pkcs_sha_256 = codes "RSASSA_PKCS1_V1_5_SHA_256"
algorithm_text rsa_pkcs_sha_384 = codes "RSASSA_PKCS1_V1_5_SHA_384"
algorithm_text rsa_pkcs_sha_512 = codes "RSASSA_PKCS1_V1_5_SHA_512"
algorithm_text hmac_sha_224 = codes "HMAC_SHA_224"
algorithm_text hmac_sha_256 = codes "HMAC_SHA_256"
algorithm_text hmac_sha_384 = codes "HMAC_SHA_384"
algorithm_text hmac_sha_512 = codes "HMAC_SHA_512"
algorithm_text (SigningAlgorithm.other t) = t

unfoldable pub supports : List SigningAlgorithm → SigningAlgorithm → Bool
supports [] a = false
supports (b ∷ bs) a = text_eq (algorithm_text b) (algorithm_text a) || supports bs a
