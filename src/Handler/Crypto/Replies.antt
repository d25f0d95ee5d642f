-- ===== src/Handler/Crypto/Replies.antt =====
-- The keys that getUsableKey of handler/helpers.go hands out, and the switches on the kind of a key in
-- handler/encrypt.go and handler/decrypt.go.
use local_kms.Prelude.{
  ℕ, ◌≡◌, refl, sym, ◌<◌, ==_iff, Bool, true, false, Text, text_eq_refl, length, [], arith,
}
use mathlib.Core.List.{append-nil}
use local_kms.Config.{Env}
use local_kms.Result.{ok}
use local_kms.Exec.{bind-ok, steps, raise_if}
use local_kms.Cmk.{
  Key, KeyMetadata, EncryptionAlgorithm, aes, rsa, ecc, hmac, get_metadata, get_arn,
}
use local_kms.Cmk.Context.{Context}
use local_kms.Cmk.Encryption.{Aead, nonce_size}
use local_kms.Cmk.Encryption.Roundtrip.{decrypt-encrypt_and_package}
use local_kms.Cmk.Rsa
use local_kms.Cmk.Rsa.{Oaep}
use local_kms.Data.Backend.{Backend}
use local_kms.Handler.Lookup.{get_key, get_usable_key, is_pending_import}
use local_kms.Handler.Crypto.{encrypt_under, decrypt_under, match_blob}

-- The key can be used: it is enabled, has no deletion date, and does not wait for its material.
abbrev pub IsUsable : KeyMetadata → Type 0
IsUsable m = (m.enabled ≡ true) × (m.deletion_date ≡ 0) × (is_pending_import m.key_state ≡ false)

module _ {S E : Type 0} where
  -- A guard that let the call go on.
  raise_if-ok : (b : Bool) (x : E) (d t : S) → raise_if b x d ≡ (ok tt, t) → (b ≡ false) × (t ≡ d)
  raise_if-ok b x d t h = ground arith

module _ (B : Backend) (env : Env) where
  -- A lookup for use returns the key that the plain lookup returns, if that can be used, and changes
  -- no more than the plain lookup does.
  pub get_usable_key-IsUsable :
      (id : Text) (d d' : B.Store) (k : Key)
      → get_usable_key B env id d ≡ (ok k, d')
      → (get_key B env id d ≡ (ok k, d')) × IsUsable (get_metadata k)
  unfolding get_usable_key
  get_usable_key-IsUsable id d d' k h = elim (bind-ok _ (get_key B env id) d h) [
    | steps key t first rest ↦ (
      ground arith,
      (ground arith, ground (arith, ==_iff (get_metadata key).deletion_date 0), ground arith),
    )
  ]

-- How many backing keys a symmetric key has.
abbrev pub backing_count : Key → ℕ
backing_count (aes k) = length k.backing_keys
backing_count k = 0

module _ (gcm : Aead) (oaep : Oaep) (env : Env) (p : Text) (c : Context) where
  -- What the switch of Encrypt makes of a text, the switches of Decrypt take back, with the same key,
  -- context and algorithm: the key matches the blob, and what is left of the blob decrypts to the text.
  -- The key has fewer than 2 ^ 32 backing keys and an ARN of fewer than 250 bytes, and the draw of the
  -- nonce has its 12 bytes.
  pub decrypt_under-encrypt_under :
      (B : Backend) (k : Key) (a : EncryptionAlgorithm) (blob : Text) (d : B.Store)
      → backing_count k < 4294967296
      → length (get_arn k) < 250
      → length (env.random (get_arn k) 2 nonce_size) ≡ nonce_size
      → encrypt_under B env gcm oaep k p c a ≡ ok blob
      → (v : ℕ) × (text : Text) × (match_blob B env gcm oaep k blob d ≡ (ok (k, v, text), d))
        × (decrypt_under B env gcm oaep k v text c a ≡ ok p)
  unfolding encrypt_under decrypt_under match_blob
  decrypt_under-encrypt_under B (aes k) a blob d few short full h =
      let (b, taken, ident, decrypted) =
        decrypt-encrypt_and_package gcm env k p c c k blob ([], sym (append-nil k.backing_keys)) few
          short full refl (ground arith) in
      (
        b.version,
        b.ciphertext,
        ground (arith, taken, ident, text_eq_refl k.metadata.arn),
        ground (arith, decrypted),
      )
  decrypt_under-encrypt_under B (rsa k) a blob d few short full h =
      (0, blob, refl, ground (arith, Rsa.decrypt-encrypt oaep k a p blob))
  decrypt_under-encrypt_under B (ecc k) a blob d few short full h = absurd (ground arith)
  decrypt_under-encrypt_under B (hmac k) a blob d few short full h = absurd (ground arith)
