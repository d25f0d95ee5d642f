-- ===== src/Cmk/Rsa.antt =====
-- cmk/rsa_encryption.go: RSA-OAEP with the hash that the algorithm names.
use local_kms.Prelude.{◌≡◌, Text, Option, none, some, arith}
use local_kms.Result.{Result, ok, err, ◌>>=◌}
use local_kms.Cmk.{RsaKey, EncryptionAlgorithm, oaep_sha_1, oaep_sha_256}
use local_kms.Cmk.Errors.{CmkError, unsupported_algorithm, oaep_failed}

pub data OaepHash : Type 0 where
  sha1 sha256 : OaepHash

-- `rsa.EncryptOAEP` and `rsa.DecryptOAEP` of Go's package crypto/rsa, with the bytes of the private key.
-- What was encrypted decrypts.
pub record Oaep : Type 0 where
  pub encrypt_oaep : OaepHash → Text → Text → Option Text
  pub decrypt_oaep : OaepHash → Text → Text → Option Text
  pub decrypt-encrypt :
      (h : OaepHash) (key p c : Text)
      → encrypt_oaep h key p ≡ some c
      → decrypt_oaep h key c ≡ some p

oaep_hash : EncryptionAlgorithm → Result CmkError OaepHash
oaep_hash oaep_sha_1 = ok sha1
oaep_hash oaep_sha_256 = ok sha256
oaep_hash _ = err unsupported_algorithm

abbrev or_failed : Option Text → Result CmkError Text
or_failed none = err oaep_failed
or_failed (some t) = ok t

module _ (r : Oaep) where
  unfoldable pub encrypt : RsaKey → Text → EncryptionAlgorithm → Result CmkError Text
  unfolding oaep_hash
  encrypt k plaintext algorithm = do
    h ← oaep_hash algorithm
    or_failed (r.encrypt_oaep h k.private_key plaintext)

  unfoldable pub decrypt : RsaKey → Text → EncryptionAlgorithm → Result CmkError Text
  unfolding oaep_hash
  decrypt k ciphertext algorithm = do
    h ← oaep_hash algorithm
    or_failed (r.decrypt_oaep h k.private_key ciphertext)

  -- A text that was encrypted under an RSA key decrypts under it with the same algorithm.
  pub decrypt-encrypt :
      (k : RsaKey) (a : EncryptionAlgorithm) (p c : Text)
      → encrypt k p a ≡ ok c
      → decrypt k c a ≡ ok p
  unfolding encrypt decrypt
  decrypt-encrypt k a p c h =
      ground (
        arith,
        r.decrypt-encrypt sha1 k.private_key p c,
        r.decrypt-encrypt sha256 k.private_key p c,
      )
