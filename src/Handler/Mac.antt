-- ===== src/Handler/Mac.antt =====
-- handler/generate_mac.go and handler/verify_mac.go.
pub mod Requests
use local_kms.Prelude.{not, ◌||◌, Bool, true, false, Text, text_eq, codes, Option, List, [], ◌∷◌}
use local_kms.Config.{Env}
use local_kms.Result.{Result, err}
use local_kms.Exec.{pure, lift, raise_if, ◌>>=◌, ◌>>◌}
use local_kms.Cmk.{
  Key, KeyState, SigningAlgorithm, hmac, get_metadata, get_arn, ecdsa_sha_256, ecdsa_sha_384,
  ecdsa_sha_512, rsa_pss_sha_256, rsa_pss_sha_384, rsa_pss_sha_512, rsa_pkcs_sha_256,
  rsa_pkcs_sha_384, rsa_pkcs_sha_512, hmac_sha_224, hmac_sha_256, hmac_sha_384, hmac_sha_512,
}
use local_kms.Cmk.Algorithms.{supports}
use local_kms.Cmk.Hmac
use local_kms.Cmk.Hmac.{Hash}
use local_kms.Data.Backend.{Backend}
use local_kms.Handler.Responses.{Exception, Api, require, disabled, validation, internal_failure}
use local_kms.Handler.Lookup.{get_usable_key}
use local_kms.Handler.Crypto.{or_exception}

abbrev pub is_enabled : KeyState → Bool
is_enabled KeyState.enabled = true
is_enabled _ = false

abbrev pub is_hmac : Key → Bool
is_hmac (hmac k) = true
is_hmac _ = false

module _ (B : Backend) (env : Env) (mac : Hash → Text → Text → Text) where
  -- The checks that both handlers make of the key.
  abbrev pub mac_key : Text → SigningAlgorithm → Api B Key
  mac_key id algorithm = do
    key ← get_usable_key B env id
    raise_if (not (is_enabled (get_metadata key).key_state)) disabled
    raise_if (not (is_hmac key)) validation
    raise_if (not (supports (get_metadata key).signing_algorithms algorithm)) validation
    pure key

  unfoldable pub generate_under : Key → Text → SigningAlgorithm → Result Exception Text
  generate_under (hmac k) message algorithm =
      or_exception internal_failure (Hmac.generate_mac mac k message algorithm)
  generate_under _ message algorithm = err validation

  unfoldable pub verify_under : Key → Text → Text → SigningAlgorithm → Result Exception Bool
  verify_under (hmac k) message code algorithm =
      or_exception internal_failure (Hmac.verify_mac mac k message code algorithm)
  verify_under _ message code algorithm = err validation

  -- The algorithm is `none` where it is empty.
  unfoldable pub generate_mac :
      Option Text → Option Text → Option SigningAlgorithm → Api B (Text × Text)
  generate_mac key_id message algorithm = do
    id ← require key_id validation
    m ← require message validation
    a ← require algorithm validation
    key ← mac_key id a
    code ← lift (generate_under key m a)
    pure (get_arn key, code)

  unfoldable pub verify_mac :
      Option Text → Option Text → Option Text → Option SigningAlgorithm → Api B (Text × Bool)
  verify_mac key_id message code algorithm = do
    id ← require key_id validation
    m ← require message validation
    c ← require code validation
    a ← require algorithm validation
    key ← mac_key id a
    valid ← lift (verify_under key m c a)
    pure (get_arn key, valid)
