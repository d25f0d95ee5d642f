-- ===== src/Handler/Crypto/Requests.antt =====
-- Encrypt and Decrypt of handler/ as whole requests, one after the other.
use local_kms.Prelude.{
  ℕ, ◌≡◌, ap, sym, ◌∙◌, ◌<◌, ltb, is_empty, false, Text, codes, contains, length, some, arith,
}
use local_kms.Config.{Env, ensure_arn}
use local_kms.Result.{ok}
use local_kms.Exec.{bind-ok, steps, guard-ok, passes, lift}
use local_kms.Cmk.{Key, EncryptionAlgorithm, get_arn}
use local_kms.Cmk.Context.{Context}
use local_kms.Cmk.Encryption.{Aead, nonce_size}
use local_kms.Cmk.Rsa.{Oaep}
use local_kms.Data.Backend.{Backend}
use local_kms.Data.Keys.{load_key, rotate}
use local_kms.Data.Keys.Again.{load_key-load_key}
use local_kms.Handler.Responses.{validation}
use local_kms.Handler.Lookup.{find_key, get_key, get_usable_key}
use local_kms.Handler.Crypto.{
  algorithm_or_default, encrypt_under, encrypt, decrypt, locate, match_blob, decrypt_under,
}
use local_kms.Handler.Crypto.Replies.{
  backing_count, get_usable_key-IsUsable, decrypt_under-encrypt_under,
}

-- The key's own id or ARN, in a state that the next load keeps.
abbrev pub Names : Env → Text → Key → Type 0
Names env id k =
    (contains (codes "alias/") id ≡ false)
    × (ensure_arn env (codes "key/") id ≡ get_arn k)
    × ((rotate env k).1 ≡ false)

module _ (B : Backend) (env : Env) (id : Text) (k : Key) where
  get_key-get_key :
      (d d' : B.Store)
      → Names env id k
      → get_key B env id d ≡ (ok k, d')
      → get_key B env id d' ≡ (ok k, d')
  unfolding get_key find_key
  get_key-get_key d d' (plain, own, still) h =
      let loaded : load_key B env (ensure_arn env (codes "key/") id) d ≡ (ok k, d') =
        ground arith in
      let again =
        load_key-load_key B env (ensure_arn env (codes "key/") id) d d' k loaded (sym own) still in
      ground (arith, again)

  pub get_usable_key-get_usable_key :
      (d d' : B.Store)
      → Names env id k
      → get_usable_key B env id d ≡ (ok k, d')
      → get_usable_key B env id d' ≡ (ok k, d')
  unfolding get_usable_key
  get_usable_key-get_usable_key d d' n h =
      let (found, (on, dated, waits)) = get_usable_key-IsUsable B env id d d' k h in
      ground (arith, get_key-get_key d d' n found, on, dated, waits)

module _ (B : Backend) (gcm : Aead) (oaep : Oaep) (env : Env) (p : Text) (c : Context) where
  encrypt-ok :
      (id : Text) (a : EncryptionAlgorithm) (d d' : B.Store) (arn blob : Text)
      → encrypt B env gcm oaep (some id) p c a d ≡ (ok (arn, blob), d')
      → (k : Key) × (get_usable_key B env id d ≡ (ok k, d'))
        × (get_arn k ≡ arn)
        × (encrypt_under B env gcm oaep k p c (algorithm_or_default a) ≡ ok blob)
  unfolding encrypt
  encrypt-ok id a d d' arn blob h = elim (guard-ok _ (is_empty p) validation d h) [
    | passes e₁ h₁ ↦ elim (guard-ok _ (ltb 4096 (length p)) validation d h₁) [
      | passes e₂ h₂ ↦ elim (bind-ok _ (get_usable_key B env id) d h₂) [
        | steps k t found h₃ ↦
            elim (bind-ok _ (lift (encrypt_under B env gcm oaep k p c (algorithm_or_default a))) t
              h₃) [ steps b u made end ↦ (k, ground arith, ground arith, ground arith) ]
      ]
    ]
  ]

  -- A whole request to decrypt a blob that matches a key in the store and opens under it.
  pub decrypt-matched :
      (id : Text) (a : EncryptionAlgorithm) (d d' : B.Store) (k : Key) (blob : Text) (v : ℕ)
      (text : Text)
      → get_usable_key B env id d ≡ (ok k, d')
      → Names env id k
      → is_empty blob ≡ false
      → ltb 6144 (length blob) ≡ false
      → match_blob B env gcm oaep k blob d' ≡ (ok (k, v, text), d')
      → decrypt_under B env gcm oaep k v text c (algorithm_or_default a) ≡ ok p
      → decrypt B env gcm oaep (some id) blob c a d' ≡ (ok (get_arn k, p), d')
  unfolding decrypt locate
  decrypt-matched id a d d' k blob v text found n some_left fits matched back =
      ground (arith, get_usable_key-get_usable_key B env id k d d' n found, matched, back)

  -- A blob that the switch of Encrypt made decrypts in a whole request. The key, named by its id or
  -- ARN, is the one that the store holds.
  pub decrypt-made :
      (id : Text) (a : EncryptionAlgorithm) (d d' : B.Store) (k : Key) (blob : Text)
      → get_usable_key B env id d ≡ (ok k, d')
      → Names env id k
      → backing_count k < 4294967296
      → length (get_arn k) < 250
      → length (env.random (get_arn k) 2 nonce_size) ≡ nonce_size
      → is_empty blob ≡ false
      → ltb 6144 (length blob) ≡ false
      → encrypt_under B env gcm oaep k p c (algorithm_or_default a) ≡ ok blob
      → decrypt B env gcm oaep (some id) blob c a d' ≡ (ok (get_arn k, p), d')
  decrypt-made id a d d' k blob found n few short full some_left fits made =
      let (v, text, matched, back) =
        decrypt_under-encrypt_under gcm oaep env p c B k (algorithm_or_default a) blob d' few short
          full made in
      decrypt-matched id a d d' k blob v text found n some_left fits matched back

  -- When Encrypt answers for a key that is named by its id or ARN, Decrypt, asked with the same key,
  -- context and algorithm at the same time, gives the text back and leaves the store as it is: if no
  -- rotation of the key is due, it has fewer than 2 ^ 32 backing keys and an ARN of fewer than 250
  -- bytes, the nonce has its 12 bytes, and the blob is not empty and within the limit of 6144 bytes.
  pub decrypt-encrypt_request :
      (id : Text) (a : EncryptionAlgorithm) (d d' : B.Store) (k : Key) (arn blob : Text)
      → get_usable_key B env id d ≡ (ok k, d')
      → Names env id k
      → backing_count k < 4294967296
      → length arn < 250
      → length (env.random arn 2 nonce_size) ≡ nonce_size
      → is_empty blob ≡ false
      → ltb 6144 (length blob) ≡ false
      → encrypt B env gcm oaep (some id) p c a d ≡ (ok (arn, blob), d')
      → decrypt B env gcm oaep (some id) blob c a d' ≡ (ok (arn, p), d')
  decrypt-encrypt_request id a d d' k arn blob found n few short full some_left fits h =
      let (k', found', own, made) = encrypt-ok id a d d' arn blob h in
      let same : k' ≡ k = ground (arith, found, found') in
      let own' : get_arn k ≡ arn = ap get_arn (sym same) ∙ own in
      let made' : encrypt_under B env gcm oaep k p c (algorithm_or_default a) ≡ ok blob =
        rw (← same) made in
      let short' : length (get_arn k) < 250 = rw own' short in
      let full' : length (env.random (get_arn k) 2 nonce_size) ≡ nonce_size = rw own' full in
      rw (← own') (decrypt-made id a d d' k blob found n few short' full' some_left fits made')
