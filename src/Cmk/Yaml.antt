-- ===== src/Cmk/Yaml.antt =====
-- Keys from YAML: the methods UnmarshalYAML of cmk/aes_key.go, hmac_key.go, rsa_key.go and ecc_key.go.
use local_kms.Prelude.{
  ℕ, ◌+◌, ◌*◌, ◌-◌, ◌==◌, not, ◌&&◌, Bool, true, false, ltb, leb, Text, length, Option, none, some,
  List, [], ◌∷◌, if◌then◌else◌,
}
use local_kms.Config.{Env}
use local_kms.Result.{Result, ok, err, panic, ◌>>=◌, ◌>>◌, fail_if}
use local_kms.Cmk.{
  KeyMetadata, AesKey, HmacKey, RsaKey, EccKey, KeySpec, KeyState, KeyUsage, EncryptionAlgorithm,
  SigningAlgorithm, ecc_nist_p256, ecc_nist_p384, ecc_nist_p521, rsa_2048, rsa_3072, rsa_4096,
  ecdsa_sha_256, ecdsa_sha_384, ecdsa_sha_512, is_external, initialize,
}
use local_kms.Cmk.Errors.{CmkError}
use local_kms.Cmk.Aes.{no_parameters}
use local_kms.Cmk.Hmac.{get_hmac_key_size, get_hmac_signing_algorithms}
use local_kms.Cmk.Generate.{with_algorithms}

-- The fields of a key in YAML, as the library yaml has decoded them: of a symmetric or HMAC key, and of
-- an asymmetric one.
pub record SymmetricForm : Type 0 where
  pub metadata : KeyMetadata
  pub backing_keys : List Text
  pub next_key_rotation : Option ℕ

pub record AsymmetricForm : Type 0 where
  pub metadata : KeyMetadata
  pub private_key_pem : Text

-- `UnmarshalYAMLError`, by what it complains of.
pub data YamlError : Type 0 where
  undecoded too_many_keys no_keys bad_hex bad_length unsupported_spec : YamlError
  bad_pem bad_private_key bad_size bad_usage : YamlError

-- Go's encoding/pem and crypto/x509: the bytes in the first block of a PEM text; the private key and the
-- bits of its curve, in SEC 1 form; and a private key in PKCS 8 form, with the bits of its modulus if
-- it is an RSA key and `none` if it is another.
pub record Parsers : Type 0 where
  pub pem_block : Text → Option Text
  pub parse_ec : Text → Option (Text × ℕ)
  pub parse_pkcs8 : Text → Option (Option (Text × ℕ))

unfoldable pub hex_digit : ℕ → Option ℕ
hex_digit c =
    if leb b'0' c && leb c b'9'
    then some (c - b'0')
    else if leb b'a' c && leb c b'f'
    then some (c - b'a' + 10)
    else if leb b'A' c && leb c b'F'
    then some (c - b'A' + 10)
    else none

abbrev pub hex_pair : Option ℕ → Option ℕ → Option Text → Option Text
hex_pair (some hi) (some lo) (some rest) = some ((hi * 16 + lo) ∷ rest)
hex_pair _ _ _ = none

-- `hex.DecodeString`: an odd length is an error.
unfoldable pub hex_decode : Text → Option Text
unfolding hex_digit
hex_decode [] = some []
hex_decode (c ∷ []) = none
hex_decode (c ∷ c' ∷ cs) = hex_pair (hex_digit c) (hex_digit c') (hex_decode cs)

abbrev pub or_yaml : {A : Type 0} → YamlError → Option A → Result YamlError A
or_yaml e none = err e
or_yaml e (some a) = ok a

abbrev pub or_unsupported : {A : Type 0} → Result CmkError A → Result YamlError A
or_unsupported (ok a) = ok a
or_unsupported (err e) = err unsupported_spec
or_unsupported panic = panic

-- The loop over the backing keys, each of which has the given length.
unfoldable pub decode_backing_keys : ℕ → List Text → Result YamlError (List Text)
unfolding hex_decode
decode_backing_keys size [] = ok []
decode_backing_keys size (t ∷ ts) = do
  key ← or_yaml bad_hex (hex_decode t)
  fail_if (not (length key == size)) bad_length
  keys ← decode_backing_keys size ts
  ok (key ∷ keys)

-- An external key has at most one backing key, and any other at least one.
abbrev pub check_count : Bool → ℕ → Result YamlError Unit
check_count true n = fail_if (ltb 1 n) too_many_keys
check_count false n = fail_if (ltb n 1) no_keys

-- An external key without material waits for it.
unfoldable pub await_material : Bool → List Text → KeyMetadata → KeyMetadata
await_material true [] m = record m { key_state = KeyState.pending_import; enabled = false }
await_material _ keys m = m

module _ (env : Env) where
  -- `none` is a form that the library could not decode.
  unfoldable pub unmarshal_aes : Option SymmetricForm → Result YamlError AesKey
  unfolding decode_backing_keys await_material
  unmarshal_aes form = do
    yk ← or_yaml undecoded form
    let m = initialize env yk.metadata.key_id yk.metadata
    check_count (is_external m.origin) (length yk.backing_keys)
    keys ← decode_backing_keys 32 yk.backing_keys
    let m' = await_material (is_external m.origin) keys m
    ok (record {
      metadata = record m' {
        key_usage = KeyUsage.encrypt_decrypt;
        key_spec = KeySpec.symmetric_default;
        customer_master_key_spec = KeySpec.symmetric_default;
        encryption_algorithms = EncryptionAlgorithm.symmetric_default ∷ [];
      };
      policy = [];
      backing_keys = keys;
      next_key_rotation = yk.next_key_rotation;
      parameters_for_import = no_parameters;
      on_demand_rotation_count = 0;
    })

  unfoldable pub unmarshal_hmac : Option SymmetricForm → Result YamlError HmacKey
  unfolding decode_backing_keys await_material
  unmarshal_hmac form = do
    yk ← or_yaml undecoded form
    let m = initialize env yk.metadata.key_id yk.metadata
    check_count (is_external m.origin) (length yk.backing_keys)
    size ← or_unsupported (get_hmac_key_size yk.metadata.key_spec)
    keys ← decode_backing_keys size yk.backing_keys
    let m' = await_material (is_external m.origin) keys m
    algorithms ← or_unsupported (get_hmac_signing_algorithms yk.metadata.key_spec)
    ok (record {
      metadata = record m' {
        key_usage = KeyUsage.generate_verify_mac;
        customer_master_key_spec = yk.metadata.key_spec;
        signing_algorithms = algorithms;
      };
      policy = [];
      backing_keys = keys;
      next_key_rotation = yk.next_key_rotation;
      parameters_for_import = no_parameters;
    })

unfoldable pub rsa_spec : ℕ → Result YamlError KeySpec
rsa_spec bits =
    if bits == 2048
    then ok rsa_2048
    else if bits == 3072
    then ok rsa_3072
    else if bits == 4096
    then ok rsa_4096
    else err bad_size

unfoldable pub ecc_spec : ℕ → Result YamlError (KeySpec × SigningAlgorithm)
ecc_spec bits =
    if bits == 256
    then ok (ecc_nist_p256, ecdsa_sha_256)
    else if bits == 384
    then ok (ecc_nist_p384, ecdsa_sha_384)
    else if bits == 521
    then ok (ecc_nist_p521, ecdsa_sha_512)
    else err bad_size

abbrev pub is_sign_verify : KeyUsage → Bool
is_sign_verify KeyUsage.sign_verify = true
is_sign_verify _ = false

-- `parseResult.(*rsa.PrivateKey)`, which panics for a key of another kind
abbrev pub as_rsa : Option (Text × ℕ) → Result YamlError (Text × ℕ)
as_rsa none = panic
as_rsa (some key) = ok key

abbrev pub or_bad_usage : {A : Type 0} → Result CmkError A → Result YamlError A
or_bad_usage (ok a) = ok a
or_bad_usage (err e) = err bad_usage
or_bad_usage panic = panic

module _ (env : Env) (p : Parsers) where
  unfoldable pub unmarshal_rsa : Option AsymmetricForm → Result YamlError RsaKey
  unfolding rsa_spec
  unmarshal_rsa form = do
    yk ← or_yaml undecoded form
    let m = initialize env yk.metadata.key_id yk.metadata
    block ← or_yaml bad_pem (p.pem_block yk.private_key_pem)
    parsed ← or_yaml bad_private_key (p.parse_pkcs8 block)
    (key, bits) ← as_rsa parsed
    spec ← rsa_spec bits
    m' ← or_bad_usage (
        with_algorithms m.key_usage (record m { key_spec = spec; customer_master_key_spec = spec }))
    ok (record { metadata = m'; policy = []; private_key = key })

  unfoldable pub unmarshal_ecc : Option AsymmetricForm → Result YamlError EccKey
  unfolding ecc_spec
  unmarshal_ecc form = do
    yk ← or_yaml undecoded form
    let m = initialize env yk.metadata.key_id yk.metadata
    block ← or_yaml bad_pem (p.pem_block yk.private_key_pem)
    (key, bits) ← or_yaml bad_private_key (p.parse_ec block)
    (spec, algorithm) ← ecc_spec bits
    fail_if (not (is_sign_verify m.key_usage)) bad_usage
    ok (record {
      metadata = record m {
        key_spec = spec;
        customer_master_key_spec = spec;
        signing_algorithms = algorithm ∷ [];
      };
      policy = [];
      private_key = key;
    })
