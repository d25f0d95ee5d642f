-- ===== src/Handler/Mac/Requests.antt =====
-- GenerateMac and VerifyMac of handler/ as whole requests, one after the other.
use local_kms.Prelude.{◌≡◌, refl, true, Text, some, List, [], ◌∷◌, arith}
use local_kms.Config.{Env}
use local_kms.Result.{ok}
use local_kms.Exec.{bind-ok, steps, lift}
use local_kms.Cmk.{Key, HmacKey, SigningAlgorithm, hmac, get_metadata, get_arn}
use local_kms.Cmk.Algorithms.{supports}
use local_kms.Cmk.Hmac
use local_kms.Cmk.Hmac.{Hash}
use local_kms.Cmk.Hmac.Codes.{verify_mac-generate_mac}
use local_kms.Data.Backend.{Backend}
use local_kms.Handler.Lookup.{get_usable_key}
use local_kms.Handler.Crypto.Requests.{Names, get_usable_key-get_usable_key}
use local_kms.Handler.Mac.{
  is_enabled, is_hmac, mac_key, generate_under, verify_under, generate_mac, verify_mac,
}

module _ (B : Backend) (env : Env) (mac : Hash → Text → Text → Text) where
  generate-verify :
      (keys : List Text) (k : HmacKey) (m code : Text) (a : SigningAlgorithm)
      → k.backing_keys ≡ keys
      → Hmac.generate_mac mac k m a ≡ ok code
      → Hmac.verify_mac mac k m code a ≡ ok true
  unfolding Hmac.generate_mac
  generate-verify [] k m code a e h = absurd (ground arith)
  generate-verify (first ∷ rest) k m code a e h =
      verify_mac-generate_mac mac k k first rest [] rest m code a e e h

  verify_under-generate_under :
      (k : Key) (m code : Text) (a : SigningAlgorithm)
      → generate_under B env mac k m a ≡ ok code
      → verify_under B env mac k m code a ≡ ok true
  unfolding generate_under verify_under
  verify_under-generate_under (hmac k) m code a h =
      ground (arith, generate-verify k.backing_keys k m code a refl)
  verify_under-generate_under _ m code a h = absurd (ground arith)

  -- The checks of the key passed.
  mac_key-ok :
      (id : Text) (a : SigningAlgorithm) (d d' : B.Store) (k : Key)
      → mac_key B env mac id a d ≡ (ok k, d')
      → (get_usable_key B env id d ≡ (ok k, d'))
        × (is_enabled (get_metadata k).key_state ≡ true)
        × (is_hmac k ≡ true)
        × (supports (get_metadata k).signing_algorithms a ≡ true)
  mac_key-ok id a d d' k h = elim (bind-ok _ (get_usable_key B env id) d h) [
    | steps key t found rest ↦ (ground arith, ground arith, ground arith, ground arith)
  ]

  mac_key-mac_key :
      (id : Text) (a : SigningAlgorithm) (d d' : B.Store) (k : Key)
      → Names env id k
      → mac_key B env mac id a d ≡ (ok k, d')
      → mac_key B env mac id a d' ≡ (ok k, d')
  mac_key-mac_key id a d d' k n h =
      let (found, on, kind, supported) = mac_key-ok id a d d' k h in
      ground (arith, get_usable_key-get_usable_key B env id k d d' n found, on, kind, supported)

  -- When GenerateMac answers for a key that is named by its id or ARN, VerifyMac, asked with the same
  -- key, message and algorithm at the same time, finds the code valid and leaves the store as it is, if
  -- no rotation of the key is due.
  pub verify_mac-generate_mac_request :
      (id m : Text) (a : SigningAlgorithm) (d d' : B.Store) (k : Key) (arn code : Text)
      → get_usable_key B env id d ≡ (ok k, d')
      → Names env id k
      → generate_mac B env mac (some id) (some m) (some a) d ≡ (ok (arn, code), d')
      → verify_mac B env mac (some id) (some m) (some code) (some a) d' ≡ (ok (arn, true), d')
  unfolding generate_mac verify_mac
  verify_mac-generate_mac_request id m a d d' k arn code found n h =
      elim (bind-ok _ (mac_key B env mac id a) d h) [
        | steps k' t looked h₁ ↦ elim (bind-ok _ (lift (generate_under B env mac k' m a)) t h₁) [
          | steps c u made end ↦
              let first = (mac_key-ok id a d t k' looked).0 in
              let same : k' ≡ k = ground (arith, found, first) in
              let seen : mac_key B env mac id a d ≡ (ok k, d') =
                ground (arith, found, first, looked) in
              let made' : generate_under B env mac k m a ≡ ok code =
                ground (arith, same, made, end) in
              let own : get_arn k ≡ arn = ground (arith, same, end) in
              ground (
                arith,
                mac_key-mac_key id a d d' k n seen,
                verify_under-generate_under k m code a made',
                own,
              )
        ]
      ]
