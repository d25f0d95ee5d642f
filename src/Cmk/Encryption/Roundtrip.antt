-- ===== src/Cmk/Encryption/Roundtrip.antt =====
-- EncryptAndPackage and Decrypt of cmk/aes_encryption.go, one after the other.
use local_kms.Prelude.{
  ℕ, ◌<◌, ◌≡◌, refl, sym, ◌⊎◌, ap, ◌∙◌, Text, length, take, drop, get_elem?, get_elem?-lt,
  get_elem?-append, length-append, take-append, drop-append, some, List, [], ◌∷◌, ◌++◌, arith, inl,
  inr,
}
use local_kms.Config.{Env}
use local_kms.Result.{ok, panic}
use local_kms.Service.Ciphertext.{Blob, unpack_ciphertext_blob}
use local_kms.Service.Ciphertext.Packing.{packed, unpack-packed}
use local_kms.Cmk.{AesKey}
use local_kms.Cmk.Context.{Context, prepare_aes_encryption_context}
use local_kms.Cmk.Encryption.{Aead, nonce_size, encrypt, decrypt, encrypt_and_package, newest}

newest_some :
    {A : Type 0} (x : A) (xs : List A) → (y : A) × (get_elem? (x ∷ xs) (length xs) ≡ some y)
newest_some x [] = (x, refl)
newest_some x (y ∷ ys) = newest_some y ys

newest_cases :
    (keys : List Text)
    → ((keys ≡ []) × (newest keys ≡ panic))
      ⊎ ((v : ℕ) × (key : Text) × (newest keys ≡ ok (v, key)) × (get_elem? keys v ≡ some key))
unfolding newest
newest_cases [] = inl (refl, refl)
newest_cases (x ∷ xs) = let (y, e) = newest_some x xs in inr (length xs, y, ground (arith, e), e)

length-encrypt :
    (gcm : Aead) (env : Env) (k : AesKey) (key p : Text) (c : Context)
    → length (env.random k.metadata.arn 2 nonce_size) ≡ nonce_size
    → 0 < length (encrypt gcm env k key p c)
unfolding encrypt
length-encrypt gcm env k key p c full =
    let nonce = env.random k.metadata.arn 2 nonce_size in
    omega (arith, length-append nonce (gcm.seal key nonce p (prepare_aes_encryption_context c)))

module _ (gcm : Aead) (env : Env) (k : AesKey) (p : Text) (c : Context) where
  -- The package is that of the newest key.
  package_shape :
      (blob : Text)
      → encrypt_and_package gcm env k p c ≡ ok blob
      → (v : ℕ) × (key : Text) × (get_elem? k.backing_keys v ≡ some key)
        × (v < 4294967296)
        × (blob ≡ packed k.metadata.arn (encrypt gcm env k key p c) v)
  unfolding encrypt_and_package
  package_shape blob h = elim (newest_cases k.backing_keys) [
    | inl (none_left, e) ↦ absurd (ground arith)
    | inr (v, key, e, at) ↦ (v, key, at, ground arith, ground arith)
  ]

-- A later state of a key keeps the backing keys that it had, in their places.
abbrev pub Extends : AesKey → AesKey → Type 0
Extends k k' = (more : List Text) × (k'.backing_keys ≡ k.backing_keys ++ more)

take_nonce : (n s : Text) (i : ℕ) → i ≡ length n → take i (n ++ s) ≡ n
take_nonce n s i e = rw e (take-append n s)

drop_nonce : (n s : Text) (i : ℕ) → i ≡ length n → drop i (n ++ s) ≡ s
drop_nonce n s i e = rw e (drop-append n s)

module _ (gcm : Aead) (env : Env) (k : AesKey) (p : Text) (c c' : Context) where
  decrypt-encrypt :
      (k' : AesKey) (v : ℕ) (key : Text)
      → length k'.backing_keys < 4294967296
      → v < length k'.backing_keys
      → get_elem? k'.backing_keys v ≡ some key
      → length (env.random k.metadata.arn 2 nonce_size) ≡ nonce_size
      → prepare_aes_encryption_context c ≡ prepare_aes_encryption_context c'
      → decrypt gcm k' v (encrypt gcm env k key p c) c' ≡ ok p
  unfolding decrypt encrypt
  decrypt-encrypt k' v key few inside at full same =
      let nonce = env.random k.metadata.arn 2 nonce_size in
      let aad = prepare_aes_encryption_context c in
      let sealed = gcm.seal key nonce p aad in
      let first : take nonce_size (nonce ++ sealed) ≡ nonce =
        take_nonce nonce sealed nonce_size (sym full) in
      let rest : drop nonce_size (nonce ++ sealed) ≡ sealed =
        drop_nonce nonce sealed nonce_size (sym full) in
      rw (← same) (
        rw (first, rest)
          (ground (arith, length-append nonce sealed, gcm.unseal-seal key nonce p aad)))

  -- A text that was encrypted under k comes back when the blob is taken apart and decrypted under a
  -- key that still has the backing keys of k, such as k after rotations, with a context of the same
  -- additional data: if the later key has fewer than 2 ^ 32 backing keys, the ARN is shorter than 250
  -- bytes, and the draw of the nonce has its 12 bytes.
  pub decrypt-encrypt_and_package :
      (k' : AesKey) (blob : Text)
      → Extends k k'
      → length k'.backing_keys < 4294967296
      → length k.metadata.arn < 250
      → length (env.random k.metadata.arn 2 nonce_size) ≡ nonce_size
      → prepare_aes_encryption_context c ≡ prepare_aes_encryption_context c'
      → encrypt_and_package gcm env k p c ≡ ok blob
      → (b : Blob) × (unpack_ciphertext_blob blob ≡ ok b)
        × (b.ident ≡ k.metadata.arn)
        × (decrypt gcm k' b.version b.ciphertext c' ≡ ok p)
  decrypt-encrypt_and_package k' blob (more, later) few short full same h =
      let (v, key, at, fits, e) = package_shape gcm env k p c blob h in
      let at' : get_elem? k'.backing_keys v ≡ some key =
        rw later (get_elem?-append k.backing_keys more v at) in
      (
        record { ident = k.metadata.arn; version = v; ciphertext = encrypt gcm env k key p c },
        ap unpack_ciphertext_blob e
            ∙ unpack-packed k.metadata.arn (encrypt gcm env k key p c) v short fits
                (length-encrypt gcm env k key p c full),
        refl,
        decrypt-encrypt k' v key few (get_elem?-lt k'.backing_keys v at') at' full same,
      )
