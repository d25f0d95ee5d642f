-- ===== src/Cmk/Encryption.antt =====
-- cmk/aes_encryption.go: AES-GCM under a versioned backing key, and the packaging of the result.
pub mod Roundtrip
use local_kms.Prelude.{
  ℕ, suc, ◌+◌, ◌-◌, ◌≡◌, ltb, leb, Text, length, take, drop, get_elem?, Option, none, some, List,
  [], ◌∷◌, ◌++◌, if◌then◌else◌, ℤ, pos, negsuc,
}
use local_kms.Config.{Env}
use local_kms.Result.{Result, ok, err, panic, ◌>>=◌, ◌>>◌, fail_if}
use local_kms.Service.Safeconv.{to_unsigned}
use local_kms.Service.Ciphertext.Packing.{put_uint32}
use local_kms.Cmk.{AesKey}
use local_kms.Cmk.Errors.{
  CmkError, invalid_version, ciphertext_too_short, not_authentic, arn_too_long,
}
use local_kms.Cmk.Context.{Context, prepare_aes_encryption_context}

-- AES-GCM of Go's packages crypto/aes and crypto/cipher: key, nonce, text, additional data. A text
-- that was sealed opens again; the seal adds a tag of 16 bytes.
pub record Aead : Type 0 where
  pub seal : Text → Text → Text → Text → Text
  pub unseal : Text → Text → Text → Text → Option Text
  pub unseal-seal : (key nonce p aad : Text) → unseal key nonce (seal key nonce p aad) aad ≡ some p
  pub length-seal : (key nonce p aad : Text) → length (seal key nonce p aad) ≡ length p + 16

-- `aesgcm.NonceSize()`
abbrev pub nonce_size : ℕ
nonce_size = 12

-- `k.BackingKeys[i]`
pub index : List Text → ℕ → Result CmkError Text
index keys i = elim (get_elem? keys i) [ none ↦ panic | some key ↦ ok key ]

-- With no backing key the version is -1, and the index panics.
newest : List Text → Result CmkError (ℕ × Text)
unfolding index
newest [] = panic
newest (k ∷ ks) = do key ← index (k ∷ ks) (length ks); ok (length ks, key)

or_not_authentic : Option Text → Result CmkError Text
or_not_authentic none = err not_authentic
or_not_authentic (some p) = ok p

module _ (gcm : Aead) where
  unfoldable pub decrypt : AesKey → ℕ → Text → Context → Result CmkError Text
  unfolding index or_not_authentic to_unsigned
  decrypt k version ciphertext context = do
    count ← to_unsigned 32 (pos (length k.backing_keys))
    fail_if (leb count version) invalid_version
    key ← index k.backing_keys version
    fail_if (ltb (length ciphertext) nonce_size) ciphertext_too_short
    or_not_authentic (
        gcm.unseal key (take nonce_size ciphertext) (drop nonce_size ciphertext)
          (prepare_aes_encryption_context context))

  -- `k.encrypt`: the nonce is the draw 2 on behalf of the key.
  encrypt : Env → AesKey → Text → Text → Context → Text
  encrypt env k key plaintext context =
      let nonce = env.random k.metadata.arn 2 nonce_size in
      nonce ++ gcm.seal key nonce plaintext (prepare_aes_encryption_context context)

  unfoldable pub encrypt_and_package : Env → AesKey → Text → Context → Result CmkError Text
  unfolding newest encrypt to_unsigned
  encrypt_and_package env k plaintext context = do
    (key_version, data_key) ← newest k.backing_keys
    let ciphertext = encrypt env k data_key plaintext context
    let ident = k.metadata.arn
    fail_if (ltb 255 (length ident)) arn_too_long
    version ← to_unsigned 32 (pos key_version)
    n ← to_unsigned 8 (pos (length ident))
    ok (n ∷ (ident ++ (put_uint32 version ++ ciphertext)))
