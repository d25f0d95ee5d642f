-- ===== src/Handler/DataKeys/Roundtrip.antt =====
-- A data key or a private key that was generated, and Decrypt of handler/ on its blob.
use local_kms.Prelude.{
  ◌≡◌, not, ◌&&◌, false, ℤ, ◌<◌, ltb, is_empty, Text, length, Option, some, arith,
}
use local_kms.Config.{Env}
use local_kms.Result.{ok}
use local_kms.Exec.{bind-ok, steps, guard-ok, passes, lift}
use local_kms.Cmk.{Key, KeySpec, aes, rsa, ecc, hmac, get_arn, EncryptionAlgorithm}
use local_kms.Cmk.Context.{Context}
use local_kms.Cmk.Encryption.{Aead, nonce_size}
use local_kms.Cmk.Rsa.{Oaep}
use local_kms.Cmk.Generate.{Generators}
use local_kms.Data.Backend.{Backend}
use local_kms.Handler.Responses.{validation}
use local_kms.Handler.Lookup.{get_usable_key}
use local_kms.Handler.Signing.{Encodings}
use local_kms.Handler.Crypto.{encrypt_under, decrypt}
use local_kms.Handler.Crypto.Replies.{backing_count}
use local_kms.Handler.Crypto.Requests.{Names, decrypt-made}
use local_kms.Handler.DataKeys.{
  DataKey, DataKeyPair, wrap_data_key, data_key_bytes, out_of_bounds, is_some, is_unset,
  generate_data_key, generate_data_key_pair,
}
use local_kms.Handler.KeyPairs.Made.{NewPair, NewPair-make_pair}
use local_kms.Handler.KeyPairs.{make_pair, pair_kind}

module _ (B : Backend) (env : Env) (gcm : Aead) (oaep : Oaep) (c : Context) where
  encrypt_under-wrap_data_key :
      (k : Key) (p blob : Text)
      → wrap_data_key env gcm k p c ≡ ok blob
      → encrypt_under B env gcm oaep k p c EncryptionAlgorithm.symmetric_default ≡ ok blob
  unfolding encrypt_under
  encrypt_under-wrap_data_key (aes k) p blob h = h
  encrypt_under-wrap_data_key (rsa k) p blob h = absurd (ground arith)
  encrypt_under-wrap_data_key (ecc k) p blob h = absurd (ground arith)
  encrypt_under-wrap_data_key (hmac k) p blob h = absurd (ground arith)

  -- What the reply to a request for a data key holds.
  generate_data_key-ok :
      (id : Text) (spec : Option Text) (number : Option ℤ) (d d' : B.Store) (k : Key) (r : DataKey)
      → get_usable_key B env id d ≡ (ok k, d')
      → generate_data_key B env gcm (some id) spec number c d ≡ (ok r, d')
      → (wrap_data_key env gcm k r.plaintext c ≡ ok r.ciphertext_blob) × (r.key_id ≡ get_arn k)
  unfolding generate_data_key
  generate_data_key-ok id spec number d d' k r found h =
      elim (guard-ok _ (not (is_some number) && not (is_some spec)) validation d h) [
        | passes e₁ h₁ ↦ elim (guard-ok _ (is_some number && is_some spec) validation d h₁) [
          | passes e₂ h₂ ↦ elim (guard-ok _ (out_of_bounds number) validation d h₂) [
            | passes e₃ h₃ ↦ elim (bind-ok _ (lift (data_key_bytes spec number)) d h₃) [
              | steps n t sized h₄ ↦ elim (bind-ok _ (get_usable_key B env id) t h₄) [
                | steps k' u looked h₅ ↦
                    let same : k' ≡ k = ground (arith, found, looked) in
                    elim (bind-ok _
                      (lift (wrap_data_key env gcm k' (env.random (get_arn k') 4 n) c)) u h₅) [
                        | steps b v made end ↦ (ground (arith, same), ground (arith, same))
                      ]
              ]
            ]
          ]
        ]
      ]

  -- When GenerateDataKey answers for a key that is named by its id or ARN, Decrypt of the blob with
  -- the same key and context at the same time gives the plaintext of the reply and leaves the store as
  -- it is: if no rotation of the key is due, it has fewer than 2 ^ 32 backing keys and an ARN of fewer
  -- than 250 bytes, the nonce has its 12 bytes, and the blob is not empty and within 6144 bytes.
  pub decrypt-generate_data_key :
      (id : Text) (spec : Option Text) (number : Option ℤ) (d d' : B.Store) (k : Key) (r : DataKey)
      → get_usable_key B env id d ≡ (ok k, d')
      → Names env id k
      → backing_count k < 4294967296
      → length (get_arn k) < 250
      → length (env.random (get_arn k) 2 nonce_size) ≡ nonce_size
      → is_empty r.ciphertext_blob ≡ false
      → ltb 6144 (length r.ciphertext_blob) ≡ false
      → generate_data_key B env gcm (some id) spec number c d ≡ (ok r, d')
      → decrypt B env gcm oaep (some id) r.ciphertext_blob c EncryptionAlgorithm.unset d'
        ≡ (ok (r.key_id, r.plaintext), d')
  decrypt-generate_data_key id spec number d d' k r found n few short full some_left fits h =
      let (wrapped, own) = generate_data_key-ok id spec number d d' k r found h in
      rw own (
        decrypt-made B gcm oaep env r.plaintext c id EncryptionAlgorithm.unset d d' k
          r.ciphertext_blob found n few short full some_left fits
          (encrypt_under-wrap_data_key k r.plaintext r.ciphertext_blob wrapped))

module _ (B : Backend) (env : Env) (gcm : Aead) (oaep : Oaep) (g : Generators) (e : Encodings)
    (c : Context) where
  -- What the reply to a request for a key pair holds.
  generate_data_key_pair-ok :
      (id : Text) (spec : KeySpec) (d d' : B.Store) (k : Key) (r : DataKeyPair)
      → get_usable_key B env id d ≡ (ok k, d')
      → generate_data_key_pair B env gcm g e (some id) spec c d ≡ (ok r, d')
      → (wrap_data_key env gcm k r.private_key_plaintext c ≡ ok r.private_key_ciphertext_blob)
        × (make_pair env g e (pair_kind spec) ≡ ok (r.public_key, r.private_key_plaintext))
        × (r.key_id ≡ get_arn k)
  unfolding generate_data_key_pair
  generate_data_key_pair-ok id spec d d' k r found h =
      elim (guard-ok _ (is_unset spec) validation d h) [
        | passes e₁ h₁ ↦ elim (bind-ok _ (get_usable_key B env id) d h₁) [
          | steps k' t looked h₂ ↦
              elim (bind-ok _ (lift (make_pair env g e (pair_kind spec))) t h₂) [
                | steps (public, private) u paired h₃ ↦
                    let same : k' ≡ k = ground (arith, found, looked) in
                    elim (bind-ok _ (lift (wrap_data_key env gcm k' private c)) u h₃) [
                      | steps b v made end ↦
                          (ground (arith, same), ground (arith, paired), ground (arith, same))
                    ]
              ]
        ]
      ]

  -- When GenerateDataKeyPair answers for a key that is named by its id or ARN, the pair in the reply is
  -- the encoding of a key that was made on the curve, or with the number of bits, of the spec, and Decrypt of the blob with the same key and context at the same time
  -- gives the private key of the reply and leaves the store as it is: if no rotation of the key is
  -- due, it has fewer than 2 ^ 32 backing keys and an ARN of fewer than 250 bytes, the nonce has its 12
  -- bytes, and the blob is not empty and within 6144 bytes.
  pub decrypt-generate_data_key_pair :
      (id : Text) (spec : KeySpec) (d d' : B.Store) (k : Key) (r : DataKeyPair)
      → get_usable_key B env id d ≡ (ok k, d')
      → Names env id k
      → backing_count k < 4294967296
      → length (get_arn k) < 250
      → length (env.random (get_arn k) 2 nonce_size) ≡ nonce_size
      → is_empty r.private_key_ciphertext_blob ≡ false
      → ltb 6144 (length r.private_key_ciphertext_blob) ≡ false
      → generate_data_key_pair B env gcm g e (some id) spec c d ≡ (ok r, d')
      → NewPair env g e spec r.public_key r.private_key_plaintext
        × (decrypt B env gcm oaep
              (some id)
              r.private_key_ciphertext_blob
              c
              EncryptionAlgorithm.unset
              d'
            ≡ (ok (r.key_id, r.private_key_plaintext), d'))
  decrypt-generate_data_key_pair id spec d d' k r found n few short full some_left fits h =
      let (wrapped, paired, own) = generate_data_key_pair-ok id spec d d' k r found h in
      (
        NewPair-make_pair env g e spec r.public_key r.private_key_plaintext paired,
        rw own (
            decrypt-made B gcm oaep env r.private_key_plaintext c id EncryptionAlgorithm.unset d d'
              k r.private_key_ciphertext_blob found n few short full some_left fits
              (encrypt_under-wrap_data_key B env gcm oaep c k r.private_key_plaintext
                r.private_key_ciphertext_blob wrapped)),
      )
