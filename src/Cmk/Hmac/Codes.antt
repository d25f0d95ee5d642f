-- ===== src/Cmk/Hmac/Codes.antt =====
-- GenerateMac and VerifyMac of cmk/hmac_key.go, one after the other.
use local_kms.Prelude.{
  ◌≡◌, ◌≢◌, ◌⊎◌, refl, true, Text, text_eq_refl, List, [], ◌∷◌, ◌++◌, arith, inl, inr,
}
use local_kms.Config.{Env}
use local_kms.Result.{ok, err}
use local_kms.Cmk.{
  HmacKey, SigningAlgorithm, hmac_sha_224, hmac_sha_256, hmac_sha_384, hmac_sha_512,
}
use local_kms.Cmk.Errors.{CmkError, unsupported_algorithm}
use local_kms.Cmk.Hmac.{
  Hash, sha256_224, sha256, sha512_384, sha512, generate_mac, verify_mac, get_hash_function,
  matches_any, rotate_if_needed,
}

hash_cases :
    (a : SigningAlgorithm)
    → ((h : Hash) × (get_hash_function a ≡ ok h)) ⊎ ((x : CmkError) × (get_hash_function a ≡ err x))
unfolding get_hash_function
hash_cases hmac_sha_224 = inl (sha256_224, refl)
hash_cases hmac_sha_256 = inl (sha256, refl)
hash_cases hmac_sha_384 = inl (sha512_384, refl)
hash_cases hmac_sha_512 = inl (sha512, refl)
hash_cases _ = inr (unsupported_algorithm, refl)

module _ (mac : Hash → Text → Text → Text) where
  -- A code of one of the backing keys is recognised.
  matches_any-append :
      (h : Hash) (before after : List Text) (key message : Text)
      → matches_any mac h (before ++ key ∷ after) message (mac h key message) ≡ true
  unfolding matches_any
  matches_any-append h [] after key message = ground (arith, text_eq_refl (mac h key message))
  matches_any-append h (k ∷ before) after key message =
      ground (arith, matches_any-append h before after key message)

  none_matches : (h : Hash) (message code : Text) → matches_any mac h [] message code ≢ true
  unfolding matches_any
  none_matches h message code m = ground arith

  generate_mac-ok :
      (k : HmacKey) (first : Text) (rest : List Text) (message code : Text) (a : SigningAlgorithm)
      → k.backing_keys ≡ first ∷ rest
      → generate_mac mac k message a ≡ ok code
      → (h : Hash) × (get_hash_function a ≡ ok h) × (mac h first message ≡ code)
  unfolding generate_mac
  generate_mac-ok k first rest message code a e made = elim (hash_cases a) [
    | inl (h, named) ↦ (h, named, ground arith)
    | inr (x, unknown) ↦ absurd (ground arith)
  ]

  verify_mac-ok :
      (k : HmacKey) (keys : List Text) (h : Hash) (message code : Text) (a : SigningAlgorithm)
      → k.backing_keys ≡ keys
      → get_hash_function a ≡ ok h
      → matches_any mac h keys message code ≡ true
      → verify_mac mac k message code a ≡ ok true
  unfolding verify_mac
  verify_mac-ok k [] h message code a e named m = absurd (none_matches h message code m)
  verify_mac-ok k (x ∷ xs) h message code a e named m = ground arith

  -- A code that a key made verifies under each key that still has its first backing key, wherever
  -- that stands, such as the key after rotations.
  pub verify_mac-generate_mac :
      (k k' : HmacKey) (first : Text) (rest before after : List Text) (message code : Text)
      (a : SigningAlgorithm)
      → k.backing_keys ≡ first ∷ rest
      → k'.backing_keys ≡ before ++ first ∷ after
      → generate_mac mac k message a ≡ ok code
      → verify_mac mac k' message code a ≡ ok true
  verify_mac-generate_mac k k' first rest before after message code a e e' made =
      let (h, named, same) = generate_mac-ok k first rest message code a e made in
      verify_mac-ok k' (before ++ first ∷ after) h message code a e' named
        (rw (← same) (matches_any-append h before after first message))

  -- A rotation, which puts the new backing key at the end, changes no code that is made.
  pub generate_mac-rotate_if_needed :
      (env : Env) (k : HmacKey) (first : Text) (rest : List Text) (message : Text)
      (a : SigningAlgorithm)
      → k.backing_keys ≡ first ∷ rest
      → generate_mac mac (rotate_if_needed env k).0 message a ≡ generate_mac mac k message a
  unfolding generate_mac rotate_if_needed
  generate_mac-rotate_if_needed env k first rest message a e = ground arith
