-- ===== src/Cmk/Hmac.antt =====
-- cmk/hmac_key.go: HMAC keys, their rotation, the import of key material and the codes they make.
pub mod Codes
use local_kms.Prelude.{
  ℕ, ◌+◌, Bool, true, false, not, ◌||◌, ltb, ◌==◌, Text, text_eq, length, Option, none, some, List,
  [], ◌∷◌, ◌++◌, if◌then◌else◌, pos,
}
use local_kms.Config.{Env}
use local_kms.Clock.{add_year}
use local_kms.Result.{Result, ok, err, panic, ◌>>=◌, ◌>>◌, fail_if}
use local_kms.Service.Safeconv.{to_unsigned}
use local_kms.Cmk.{
  KeyMetadata, HmacKey, KeyOrigin, KeyUsage, KeySpec, SigningAlgorithm, hmac_224, hmac_256,
  hmac_384, hmac_512, hmac_sha_224, hmac_sha_256, hmac_sha_384, hmac_sha_512, is_external,
}
use local_kms.Cmk.Errors.{
  CmkError, invalid_key_length, material_mismatch, no_backing_keys, unsupported_spec,
  unsupported_algorithm,
}
use local_kms.Cmk.Aes.{no_parameters, due}

unfoldable pub get_hmac_key_size : KeySpec → Result CmkError ℕ
get_hmac_key_size hmac_224 = ok 28
get_hmac_key_size hmac_256 = ok 32
get_hmac_key_size hmac_384 = ok 48
get_hmac_key_size hmac_512 = ok 64
get_hmac_key_size _ = err unsupported_spec

unfoldable pub get_hmac_signing_algorithms : KeySpec → Result CmkError (List SigningAlgorithm)
get_hmac_signing_algorithms hmac_224 = ok (hmac_sha_224 ∷ [])
get_hmac_signing_algorithms hmac_256 = ok (hmac_sha_256 ∷ [])
get_hmac_signing_algorithms hmac_384 = ok (hmac_sha_384 ∷ [])
get_hmac_signing_algorithms hmac_512 = ok (hmac_sha_512 ∷ [])
get_hmac_signing_algorithms _ = err unsupported_spec

-- The hash functions of Go's crypto packages, by name.
pub data Hash : Type 0 where
  sha256_224 sha256 sha512_384 sha512 : Hash

unfoldable pub get_hash_function : SigningAlgorithm → Result CmkError Hash
get_hash_function hmac_sha_224 = ok sha256_224
get_hash_function hmac_sha_256 = ok sha256
get_hash_function hmac_sha_384 = ok sha512_384
get_hash_function hmac_sha_512 = ok sha512
get_hash_function _ = err unsupported_algorithm

unfoldable pub new_hmac_key :
    Env → KeySpec → KeyMetadata → Text → KeyOrigin → Result CmkError HmacKey
unfolding get_hmac_key_size get_hmac_signing_algorithms to_unsigned
new_hmac_key env key_spec m policy origin = do
  key_size ← get_hmac_key_size key_spec
  size ← to_unsigned 16 (pos key_size)
  algorithms ← get_hmac_signing_algorithms key_spec
  ok (record {
    metadata = record m {
      key_usage = KeyUsage.generate_verify_mac;
      key_spec = key_spec;
      customer_master_key_spec = key_spec;
      signing_algorithms = algorithms;
    };
    policy = policy;
    backing_keys = if is_external origin then [] else env.random m.arn 0 size ∷ [];
    next_key_rotation = none;
    parameters_for_import = no_parameters;
  })

unfoldable pub import_into : List Text → Text → Result CmkError (List Text)
import_into [] m = ok (m ∷ [])
import_into (existing ∷ rest) m =
    if not (length existing == length m) || not (text_eq existing m)
    then err material_mismatch
    else ok (existing ∷ rest)

unfoldable pub import_key_material : HmacKey → Text → Result CmkError HmacKey
unfolding get_hmac_key_size import_into
import_key_material k m = do
  expected_size ← get_hmac_key_size k.metadata.key_spec
  fail_if (not (length m == expected_size)) invalid_key_length
  keys ← import_into k.backing_keys m
  ok (record k { backing_keys = keys })

-- An unknown key spec leaves the key as it is.
unfoldable pub rotate_to : Env → HmacKey → Result CmkError ℕ → HmacKey × Bool
rotate_to env k (ok key_size) = (
  record k {
    backing_keys = k.backing_keys ++ env.random k.metadata.arn 0 key_size ∷ [];
    next_key_rotation = some (add_year env.now);
  },
  true,
)
rotate_to env k _ = (k, false)

unfoldable pub rotate_if_needed : Env → HmacKey → HmacKey × Bool
unfolding get_hmac_key_size rotate_to
rotate_if_needed env k =
    if due env k.next_key_rotation
    then rotate_to env k (get_hmac_key_size k.metadata.key_spec)
    else (k, false)

-- `hmac` is the keyed hash of Go's package crypto/hmac: hash, key, message.
module _ (mac : Hash → Text → Text → Text) where
  unfoldable pub generate_mac : HmacKey → Text → SigningAlgorithm → Result CmkError Text
  unfolding get_hash_function
  generate_mac k message algorithm = elim k.backing_keys [
    | [] ↦ err no_backing_keys
    | first ∷ rest ↦ do hasher ← get_hash_function algorithm; ok (mac hasher first message)
  ]

  unfoldable pub matches_any : Hash → List Text → Text → Text → Bool
  matches_any h [] message code = false
  matches_any h (k ∷ ks) message code =
      if text_eq code (mac h k message) then true else matches_any h ks message code

  unfoldable pub verify_mac : HmacKey → Text → Text → SigningAlgorithm → Result CmkError Bool
  unfolding get_hash_function matches_any
  verify_mac k message code algorithm = elim k.backing_keys [
    | [] ↦ err no_backing_keys
    | first ∷ rest ↦ do
      hasher ← get_hash_function algorithm
      ok (matches_any hasher (first ∷ rest) message code)
  ]
