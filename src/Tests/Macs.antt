-- ===== src/Tests/Macs.antt =====
-- Requests for codes and their verification, and the cut of a page, in memory.
use local_kms.Prelude.{
  ◌≡◌, refl, true, Text, codes, contains, has_prefix, text_eq, some, none, List, [], ◌∷◌, ◌++◌,
}
use local_kms.Config.{ensure_arn, arn_prefix}
use local_kms.Clock.{unix}
use local_kms.Result.{ok}
use local_kms.Cmk.{HmacKey, hmac, hmac_sha_256, is_pending_deletion}
use local_kms.Cmk.Algorithms.{supports}
use local_kms.Cmk.Hmac
use local_kms.Cmk.Hmac.{Hash, get_hash_function}
use local_kms.Data.Database.{unmarshal_key}
use local_kms.Data.Keys.{load_key, rotate, read_key, migrate, settle, expire, is_expired}
use local_kms.Handler.Lookup.{get_usable_key, get_key, find_key}
use local_kms.Handler.Crypto.Requests.{Names}
use local_kms.Handler.Mac.{generate_mac, verify_mac, generate_under}
use local_kms.Handler.Mac.Requests.{verify_mac-generate_mac_request}
use local_kms.Tests.Memory.{memory, Store, key}
use local_kms.Tests.Samples.{env, key_arn, hmac_key, replicate}

-- It is not rotated.
abbrev mac_key : HmacKey
mac_key = record hmac_key {
  metadata = record hmac_key.metadata { signing_algorithms = hmac_sha_256 ∷ [] };
  next_key_rotation = none;
}

abbrev mac_store : Store
mac_store = (key_arn, key (hmac mac_key)) ∷ []

abbrev toy_mac : Hash → Text → Text → Text
toy_mac h k message = k ++ message

mac_usable : get_usable_key memory env (codes "k1") mac_store ≡ (ok (hmac mac_key), mac_store)
unfolding get_usable_key get_key find_key ensure_arn arn_prefix contains has_prefix load_key
    unmarshal_key text_eq read_key rotate Hmac.rotate_if_needed migrate settle expire is_expired
    is_pending_deletion unix
mac_usable = refl

mac_named : Names env (codes "k1") (hmac mac_key)
unfolding contains has_prefix ensure_arn arn_prefix rotate Hmac.rotate_if_needed
mac_named = (refl, refl, refl)

mac_made :
    generate_mac memory env toy_mac
      (some (codes "k1"))
      (some (codes "m"))
      (some hmac_sha_256)
      mac_store
    ≡ (ok (key_arn, replicate 32 7 ++ codes "m"), mac_store)
unfolding generate_mac generate_under supports Hmac.generate_mac text_eq
mac_made = rw mac_usable refl

verify_mac-generate_mac_request_example :
    verify_mac memory env toy_mac
      (some (codes "k1"))
      (some (codes "m"))
      (some (replicate 32 7 ++ codes "m"))
      (some hmac_sha_256)
      mac_store
    ≡ (ok (key_arn, true), mac_store)
verify_mac-generate_mac_request_example =
    verify_mac-generate_mac_request memory env toy_mac (codes "k1") (codes "m") hmac_sha_256
      mac_store mac_store (hmac mac_key) key_arn (replicate 32 7 ++ codes "m") mac_usable mac_named
      mac_made

abbrev words : List Text
words = codes "a" ∷ codes "b" ∷ codes "c" ∷ []
