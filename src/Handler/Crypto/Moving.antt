-- ===== src/Handler/Crypto/Moving.antt =====
-- ReEncrypt of handler/ between an Encrypt and a Decrypt.
use local_kms.Prelude.{
  ℕ, ◌≡◌, refl, sym, not, true, false, ◌<◌, ltb, is_empty, Text, length, Option, none, some, [],
  arith,
}
use mathlib.Core.List.{append-nil}
use local_kms.Config.{Env}
use local_kms.Result.{ok}
use local_kms.Exec.{bind-ok, steps, guard-ok, passes, lift}
use local_kms.Service.Ciphertext.{Blob, unpack_ciphertext_blob}
use local_kms.Cmk.{Key, AesKey, EncryptionAlgorithm, aes, rsa, ecc, hmac, get_metadata, get_arn}
use local_kms.Cmk.Context.{Context}
use local_kms.Cmk.Encryption.{Aead, nonce_size}
use local_kms.Cmk.Encryption.Roundtrip.{Extends, decrypt-encrypt_and_package}
use local_kms.Cmk.Rsa
use local_kms.Cmk.Rsa.{Oaep}
use local_kms.Data.Backend.{Backend}
use local_kms.Handler.Responses.{missing_parameter, validation, invalid_key_usage}
use local_kms.Handler.Lookup.{get_usable_key}
use local_kms.Handler.Crypto.{
  algorithm_or_default, is_encrypt_decrypt, or_zero, encrypt_under, decrypt_under, match_blob,
  source_name, decrypt_source, encrypt_destination, re_encrypt, decrypt,
}
use local_kms.Handler.Crypto.Replies.{backing_count, decrypt_under-encrypt_under}
use local_kms.Handler.Crypto.Requests.{Names, decrypt-matched}

-- The draws of nonces have their 12 bytes, the key has fewer than 2 ^ 32 backing keys and an ARN of
-- fewer than 250 bytes.
abbrev pub Packs : Env → Key → Type 0
Packs env k =
    (backing_count k < 4294967296)
    × (length (get_arn k) < 250)
    × (length (env.random (get_arn k) 2 nonce_size) ≡ nonce_size)

-- A key at a later time: a symmetric key may have more backing keys behind those that it had.
pub data Later : Key → Key → Type 0 where
  same : {k : Key} → Later k k
  rotated : {a a' : AesKey} → Extends a a' → Later (aes a) (aes a')

-- The name under which ReEncrypt looks for the key of a blob that k made: the one that the request gives,
-- or, for a symmetric key and if it gives none, the key's ARN, which is in the blob.
pub data Source : Option Text → Text → Key → Type 0 where
  named : {src : Text} {k : Key} → Source (some src) src k
  unnamed : {a : AesKey} → Source none a.metadata.arn (aes a)

module _ (B : Backend) (gcm : Aead) (oaep : Oaep) (env : Env) (p : Text) (c : Context) where
  symmetric_source :
      (env' : Env) (k k' : AesKey) (a : EncryptionAlgorithm) (blob : Text) (b : Blob)
      → Extends k k'
      → length k'.backing_keys < 4294967296
      → length k.metadata.arn < 250
      → length (env'.random k.metadata.arn 2 nonce_size) ≡ nonce_size
      → encrypt_under B env' gcm oaep (aes k) p c a ≡ ok blob
      → or_zero (unpack_ciphertext_blob blob) ≡ ok b
      → (decrypt_source B env gcm oaep (aes k') b blob c a ≡ ok p) × (b.ident ≡ k.metadata.arn)
  unfolding encrypt_under
  symmetric_source env' k k' a blob b more few short full h taken =
      let (b', taken', ident, decrypted) =
        decrypt-encrypt_and_package gcm env' k p c c k' blob more few short full refl
          (ground arith) in
      let same : b' ≡ b = ground (arith, taken, taken') in
      rw (← same) (ground (arith, decrypted), ident)

  decrypt_source-Later :
      (env' : Env) (k k' : Key) (a : EncryptionAlgorithm) (blob : Text) (b : Blob)
      → Later k k'
      → backing_count k' < 4294967296
      → length (get_arn k) < 250
      → length (env'.random (get_arn k) 2 nonce_size) ≡ nonce_size
      → encrypt_under B env' gcm oaep k p c a ≡ ok blob
      → or_zero (unpack_ciphertext_blob blob) ≡ ok b
      → decrypt_source B env gcm oaep k' b blob c a ≡ ok p
  unfolding encrypt_under
  decrypt_source-Later env' (aes k) (aes k') a blob b (rotated more) few short full h taken =
      (symmetric_source env' k k' a blob b more few short full h taken).0
  decrypt_source-Later env' (aes k) _ a blob b same few short full h taken =
      (symmetric_source env' k k a blob b ([], sym (append-nil k.backing_keys)) few short full h
        taken).0
  decrypt_source-Later env' (rsa k) _ a blob b same few short full h taken =
      ground (arith, Rsa.decrypt-encrypt oaep k a p blob)
  decrypt_source-Later env' (ecc k) _ a blob b same few short full h taken = absurd (ground arith)
  decrypt_source-Later env' (hmac k) _ a blob b same few short full h taken = absurd (ground arith)

  source_name-encrypt_under :
      (env' : Env) (source : Option Text) (src : Text) (k k' : Key) (a : EncryptionAlgorithm)
      (blob : Text) (b : Blob)
      → Source source src k
      → Later k k'
      → backing_count k' < 4294967296
      → length (get_arn k) < 250
      → length (env'.random (get_arn k) 2 nonce_size) ≡ nonce_size
      → encrypt_under B env' gcm oaep k p c a ≡ ok blob
      → or_zero (unpack_ciphertext_blob blob) ≡ ok b
      → source_name B env gcm oaep source b.ident ≡ src
  source_name-encrypt_under env' _ src k k' a blob b named later few short full h taken = refl
  source_name-encrypt_under env' _ _ (aes k) (aes k') a blob b unnamed (rotated more) few short full
        h taken =
      (symmetric_source env' k k' a blob b more few short full h taken).1
  source_name-encrypt_under env' _ _ (aes k) _ a blob b unnamed same few short full h taken =
      (symmetric_source env' k k a blob b ([], sym (append-nil k.backing_keys)) few short full h
        taken).1

  -- The source's switch takes back what the switch of Encrypt made at another time, with the key as it
  -- was then.
  decrypt_source-encrypt_under :
      (env' : Env) (source : Option Text) (src : Text) (k k' : Key) (a : EncryptionAlgorithm)
      (blob : Text) (b : Blob)
      → Source source src k
      → Later k k'
      → backing_count k' < 4294967296
      → length (get_arn k) < 250
      → length (env'.random (get_arn k) 2 nonce_size) ≡ nonce_size
      → encrypt_under B env' gcm oaep k p c a ≡ ok blob
      → or_zero (unpack_ciphertext_blob blob) ≡ ok b
      → (decrypt_source B env gcm oaep k' b blob c a ≡ ok p)
        × (source_name B env gcm oaep source b.ident ≡ src)
  unfolding encrypt_under
  decrypt_source-encrypt_under env' source src k k' a blob b from later few short full h taken = (
    decrypt_source-Later env' k k' a blob b later few short full h taken,
    source_name-encrypt_under env' source src k k' a blob b from later few short full h taken,
  )

  -- What the destination's switch made, the switches of Decrypt take back.
  decrypt_under-encrypt_destination :
      (k : Key) (a : EncryptionAlgorithm) (blob : Text) (d : B.Store)
      → Packs env k
      → is_encrypt_decrypt (get_metadata k).key_usage ≡ true
      → encrypt_destination B env gcm oaep k p c a ≡ ok blob
      → (v : ℕ) × (text : Text) × (match_blob B env gcm oaep k blob d ≡ (ok (k, v, text), d))
        × (decrypt_under B env gcm oaep k v text c a ≡ ok p)
  unfolding encrypt_under decrypt_under match_blob
  decrypt_under-encrypt_destination (aes k) a blob d (few, short, full) usage h =
      decrypt_under-encrypt_under gcm oaep env p c B (aes k) a blob d few short full h
  decrypt_under-encrypt_destination (rsa k) a blob d packs usage h =
      (0, blob, refl, ground (arith, Rsa.decrypt-encrypt oaep k a p blob))
  decrypt_under-encrypt_destination (ecc k) a blob d packs usage h = absurd (ground arith)
  decrypt_under-encrypt_destination (hmac k) a blob d packs usage h = absurd (ground arith)

module _ (B : Backend) (gcm : Aead) (oaep : Oaep) (env : Env) (p : Text) (c c' : Context) where
  -- What a request to re-encrypt does once both keys are found: the source's switch gives the text
  -- that the destination's switch takes.
  re_encrypt-ok :
      (source : Option Text) (src to blob : Text) (a a' : EncryptionAlgorithm) (d t d' : B.Store)
      (k k' : Key) (to_arn from_arn blob' : Text)
      → ((b : Blob)
          → or_zero (unpack_ciphertext_blob blob) ≡ ok b
          → source_name B env gcm oaep source b.ident ≡ src)
      → get_usable_key B env src d ≡ (ok k, t)
      → get_usable_key B env to t ≡ (ok k', d')
      → re_encrypt B env gcm oaep source (some to) blob c c' a a' d
        ≡ (ok (to_arn, from_arn, blob'), d')
      → (b : Blob) × (q : Text) × (or_zero (unpack_ciphertext_blob blob) ≡ ok b)
        × (decrypt_source B env gcm oaep k b blob c (algorithm_or_default a) ≡ ok q)
        × (is_encrypt_decrypt (get_metadata k').key_usage ≡ true)
        × (encrypt_destination B env gcm oaep k' q c' (algorithm_or_default a') ≡ ok blob')
        × (get_arn k' ≡ to_arn)
  unfolding re_encrypt
  re_encrypt-ok source src to blob a a' d t d' k k' to_arn from_arn blob' at found found' h =
      elim (guard-ok _ (is_empty blob) missing_parameter d h) [
        | passes e₁ h₁ ↦ elim (guard-ok _ (ltb 6144 (length blob)) validation d h₁) [
          | passes e₂ h₂ ↦ elim (bind-ok _ (lift (or_zero (unpack_ciphertext_blob blob))) d h₂) [
            | steps b t₁ taken h₃ ↦
                elim (bind-ok _ (get_usable_key B env (source_name B env gcm oaep source b.ident))
                  t₁ h₃) [
                    | steps k₁ t₂ looked₀ h₄ ↦
                        let start : t₁ ≡ d = ground (arith, taken) in
                        let name : source_name B env gcm oaep source b.ident ≡ src =
                          at b (ground (arith, taken)) in
                        let looked : get_usable_key B env src t₁ ≡ (ok k₁, t₂) =
                          rw (← name) looked₀ in
                        let one : k₁ ≡ k = ground (arith, start, looked, found) in
                        let then_at : t₂ ≡ t = ground (arith, start, looked, found) in
                        elim (guard-ok _ (not (is_encrypt_decrypt (get_metadata k₁).key_usage))
                          invalid_key_usage t₂ h₄) [
                            | passes e₃ h₅ ↦
                                elim (bind-ok _
                                  (lift (
                                    decrypt_source B env gcm oaep k₁ b blob c
                                      (algorithm_or_default a)))
                                  t₂ h₅) [
                                    | steps q t₃ opened h₆ ↦
                                        elim (bind-ok _ (get_usable_key B env to) t₃ h₆) [
                                          | steps k₂ t₄ looked' h₇ ↦
                                              let two : k₂ ≡ k' =
                                                ground (arith, then_at, opened, looked', found') in
                                              elim (guard-ok _
                                                (not
                                                  (is_encrypt_decrypt (get_metadata k₂).key_usage))
                                                invalid_key_usage t₄ h₇) [
                                                  | passes e₄ h₈ ↦
                                                      elim (bind-ok _
                                                        (lift (
                                                          encrypt_destination B env gcm oaep k₂ q c'
                                                            (algorithm_or_default a')))
                                                        t₄ h₈) [
                                                          | steps r u moved end ↦ (
                                                            b,
                                                            q,
                                                            ground (arith, taken),
                                                            ground (arith, one, opened),
                                                            ground (arith, two, e₄),
                                                            ground (arith, two, moved, end),
                                                            ground (arith, two, end),
                                                          )
                                                        ]
                                                ]
                                        ]
                                  ]
                          ]
                  ]
          ]
        ]
      ]

  -- A text that was encrypted at any time under k₀, and that ReEncrypt, which finds k₀ again, possibly
  -- with more backing keys, moved to a destination that is named by its id or ARN, comes back from Decrypt
  -- with the destination's name, context and algorithm at the time of ReEncrypt. ReEncrypt finds the key
  -- by the name in the request, or, if there is none and k₀ is symmetric, by its ARN. Both keys have fewer
  -- than 2 ^ 32 backing keys, an ARN of fewer than 250 bytes and nonces of 12 bytes, no rotation of the
  -- destination is due, and the new blob is not empty and within 6144 bytes.
  pub decrypt-re_encrypt :
      (env' : Env) (source : Option Text) (src to blob : Text) (a a' : EncryptionAlgorithm)
      (d t d' : B.Store) (k₀ k k' : Key) (to_arn from_arn blob' : Text)
      → Source source src k₀
      → Later k₀ k
      → encrypt_under B env' gcm oaep k₀ p c (algorithm_or_default a) ≡ ok blob
      → get_usable_key B env src d ≡ (ok k, t)
      → get_usable_key B env to t ≡ (ok k', d')
      → Names env to k'
      → backing_count k < 4294967296
      → length (get_arn k₀) < 250
      → length (env'.random (get_arn k₀) 2 nonce_size) ≡ nonce_size
      → Packs env k'
      → is_empty blob' ≡ false
      → ltb 6144 (length blob') ≡ false
      → re_encrypt B env gcm oaep source (some to) blob c c' a a' d
        ≡ (ok (to_arn, from_arn, blob'), d')
      → decrypt B env gcm oaep (some to) blob' c' a' d' ≡ (ok (to_arn, p), d')
  decrypt-re_encrypt env' source src to blob a a' d t d' k₀ k k' to_arn from_arn blob' from later
        made found found' n few short full packs' some_left fits h =
      let back_to = λ (b : Blob) (taken : or_zero (unpack_ciphertext_blob blob) ≡ ok b).
        decrypt_source-encrypt_under B gcm oaep env p c env' source src k₀ k
          (algorithm_or_default a) blob b from later few short full made taken in
      let (b, q, taken, opened, usage, moved, own) =
        re_encrypt-ok source src to blob a a' d t d' k k' to_arn from_arn blob'
          (λ b taken. (back_to b taken).1) found found' h in
      let was = (back_to b taken).0 in
      let same : q ≡ p = ground (arith, opened, was) in
      let moved' : encrypt_destination B env gcm oaep k' p c' (algorithm_or_default a') ≡ ok blob' =
        rw (← same) moved in
      let (v, text, matched, back) =
        decrypt_under-encrypt_destination B gcm oaep env p c' k' (algorithm_or_default a') blob' d'
          packs' usage moved' in
      rw (← own) (
        decrypt-matched B gcm oaep env p c' to a' t d' k' blob' v text found' n some_left fits
          matched back)
