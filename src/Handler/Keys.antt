-- ===== src/Handler/Keys.antt =====
-- handler/create_key.go, describe_key.go, update_key_description.go, get_key_policy.go,
-- put_key_policy.go and list_keys.go.
pub mod Creation
pub mod Makers
pub mod Invariant
use local_kms.Prelude.{
  ℕ, suc, ◌==◌, not, ◌&&◌, ◌||◌, Bool, true, false, ltb, to_nat, ℤ, Text, text_eq, codes, length,
  ◌++◌, Option, none, some, List, [], ◌∷◌, if◌then◌else◌,
}
use local_kms.Config.{Env, arn_prefix, ensure_arn}
use local_kms.Result.{Result, ok, err, panic}
use local_kms.Exec.{Exec, pure, raise, lift, raise_if, check, ◌>>=◌, ◌>>◌}
use local_kms.Cmk.{
  Key, KeyMetadata, KeySpec, KeyState, KeyUsage, KeyOrigin, EncryptionAlgorithm, SigningAlgorithm,
  ExpirationModel, aes, rsa, ecc, hmac, RsaKey, EccKey, HmacKey, get_metadata, set_metadata,
  get_arn, initialize,
}
use local_kms.Cmk.Errors.{CmkError}
use local_kms.Cmk.Aes.{new_aes_key}
use local_kms.Cmk.Generate.{Generators, new_ecc_key, new_rsa_key}
use local_kms.Cmk.Hmac.{new_hmac_key}
use local_kms.Data.Backend.{Backend}
use local_kms.Data.Keys.{save_key, list_keys}
use local_kms.Handler.Responses.{
  Exception, Api, Page, expect, require, missing_parameter, validation, unsupported_operation,
  kms_invalid_state, internal_failure,
}
use local_kms.Handler.Lookup.{find_key, get_key}
use local_kms.Handler.Listing.{to_marker, limit_or, out_of_range, paginate, expect_list}
use local_kms.Handler.Tags.{TagInput, validate_tags, save_tags}

-- A spec, usage or origin that is empty is `unset`.
pub record CreateKeyInput : Type 0 where
  pub description : Option Text
  pub policy : Option Text
  pub tags : List TagInput
  pub key_spec : KeySpec
  pub customer_master_key_spec : KeySpec
  pub key_usage : KeyUsage
  pub origin : KeyOrigin

abbrev pub empty_metadata : KeyMetadata
empty_metadata = record {
  aws_account_id = [];
  arn = [];
  creation_date = 0;
  deletion_date = 0;
  description = [];
  enabled = false;
  expiration_model = ExpirationModel.unset;
  key_id = [];
  key_manager = [];
  key_state = KeyState.unset;
  key_usage = KeyUsage.unset;
  multi_region = false;
  origin = KeyOrigin.unset;
  valid_to = 0;
  signing_algorithms = [];
  encryption_algorithms = [];
  mac_algorithms = [];
  key_spec = KeySpec.unset;
  customer_master_key_spec = KeySpec.unset;
}

abbrev pub longer : ℕ → Option Text → Bool
longer n none = false
longer n (some t) = ltb n (length t)

-- The policy of a key for which none is given, with the account in it. Its text has no other part
-- that varies.
pub record DefaultPolicy : Type 0 where
  pub policy_for : Text → Text

abbrev pub policy_or : Text → Option Text → Text
policy_or default none = default
policy_or default (some p) = p

abbrev pub describe : Option Text → KeyMetadata → KeyMetadata
describe none m = m
describe (some d) m = record m { description = d }

-- KeySpec, or its deprecated name, or SYMMETRIC_DEFAULT; never both names.
unfoldable pub resolve_spec : KeySpec → KeySpec → Result Exception KeySpec
resolve_spec KeySpec.unset KeySpec.unset = ok KeySpec.symmetric_default
resolve_spec KeySpec.unset old = ok old
resolve_spec spec KeySpec.unset = ok spec
resolve_spec spec old = err validation

abbrev pub is_symmetric_default : KeySpec → Bool
is_symmetric_default KeySpec.symmetric_default = true
is_symmetric_default _ = false

-- A key of external origin begins without key material.
unfoldable pub apply_origin : KeyOrigin → KeySpec → KeyMetadata → Result Exception KeyMetadata
apply_origin KeyOrigin.unset spec m = ok m
apply_origin KeyOrigin.aws_kms spec m = ok m
apply_origin KeyOrigin.external spec m =
    if not (is_symmetric_default spec)
    then err validation
    else ok (record m {
      origin = KeyOrigin.external;
      enabled = false;
      key_state = KeyState.pending_import;
    })
apply_origin KeyOrigin.aws_cloudhsm spec m = err unsupported_operation
apply_origin (KeyOrigin.other t) spec m = err validation

abbrev pub or_internal : {A : Type 0} → (A → Key) → Result CmkError A → Result Exception Key
or_internal f (ok a) = ok (f a)
or_internal f (err e) = err internal_failure
or_internal f panic = panic

module _ (g : Generators) (env : Env) (m : KeyMetadata) (policy : Text) where
  unfoldable pub make_aes : KeyUsage → Result Exception Key
  make_aes KeyUsage.unset = ok (aes (new_aes_key env m policy m.origin))
  make_aes KeyUsage.encrypt_decrypt = ok (aes (new_aes_key env m policy m.origin))
  make_aes _ = err validation

  unfoldable pub make_ecc : KeySpec → KeyUsage → Result Exception Key
  make_ecc spec KeyUsage.sign_verify = or_internal ecc (new_ecc_key g env spec m policy)
  make_ecc spec _ = err validation

  unfoldable pub make_rsa : KeySpec → KeyUsage → Result Exception Key
  make_rsa spec KeyUsage.sign_verify =
      or_internal rsa (new_rsa_key g env spec KeyUsage.sign_verify m policy)
  make_rsa spec KeyUsage.encrypt_decrypt =
      or_internal rsa (new_rsa_key g env spec KeyUsage.encrypt_decrypt m policy)
  make_rsa spec _ = err validation

  unfoldable pub make_hmac : KeySpec → KeyUsage → Result Exception Key
  make_hmac spec KeyUsage.generate_verify_mac =
      or_internal hmac (new_hmac_key env spec m policy m.origin)
  make_hmac spec _ = err validation

  -- The usage must fit the spec; only for a symmetric key it may be left out.
  unfoldable pub make_key : KeySpec → KeyUsage → Result Exception Key
  unfolding make_aes make_ecc make_rsa make_hmac
  make_key KeySpec.symmetric_default usage = make_aes usage
  make_key KeySpec.ecc_nist_p256 usage = make_ecc KeySpec.ecc_nist_p256 usage
  make_key KeySpec.ecc_nist_p384 usage = make_ecc KeySpec.ecc_nist_p384 usage
  make_key KeySpec.ecc_nist_p521 usage = make_ecc KeySpec.ecc_nist_p521 usage
  make_key KeySpec.ecc_secp256k1 usage = make_ecc KeySpec.ecc_secp256k1 usage
  make_key KeySpec.rsa_2048 usage = make_rsa KeySpec.rsa_2048 usage
  make_key KeySpec.rsa_3072 usage = make_rsa KeySpec.rsa_3072 usage
  make_key KeySpec.rsa_4096 usage = make_rsa KeySpec.rsa_4096 usage
  make_key KeySpec.hmac_224 usage = make_hmac KeySpec.hmac_224 usage
  make_key KeySpec.hmac_256 usage = make_hmac KeySpec.hmac_256 usage
  make_key KeySpec.hmac_384 usage = make_hmac KeySpec.hmac_384 usage
  make_key KeySpec.hmac_512 usage = make_hmac KeySpec.hmac_512 usage
  make_key _ usage = err validation

abbrev pub set_policy : Key → Text → Key
set_policy (aes k) p = aes (record k { policy = p })
set_policy (rsa k) p = rsa (record k { policy = p })
set_policy (ecc k) p = ecc (record k { policy = p })
set_policy (hmac k) p = hmac (record k { policy = p })

abbrev get_policy : Key → Text
get_policy (aes k) = k.policy
get_policy (rsa k) = k.policy
get_policy (ecc k) = k.policy
get_policy (hmac k) = k.policy

abbrev pub or_text : Text → Option Text → Text
or_text default none = default
or_text default (some t) = t

module _ (B : Backend) (env : Env) where
  unfoldable pub create_key : Generators → DefaultPolicy → CreateKeyInput → Api B Key
  create_key g default body = do
    key_id ← require env.uuid internal_failure
    raise_if (longer 8192 body.description) validation
    raise_if (longer 32768 body.policy) validation
    check (validate_tags body.tags)
    let m = describe body.description (initialize env key_id empty_metadata)
    let policy = policy_or (default.policy_for env.aws_account_id) body.policy
    spec ← lift (resolve_spec body.key_spec body.customer_master_key_spec)
    m' ← lift (apply_origin body.origin spec m)
    key ← lift (make_key g env m' policy spec body.key_usage)
    expect internal_failure (save_key B env key)
    save_tags B env key body.tags
    pure key

  unfoldable pub describe_key : Option Text → Api B KeyMetadata
  describe_key key_id = do
    id ← require key_id missing_parameter
    key ← get_key B env id
    pure (get_metadata key)

  unfoldable pub update_key_description : Option Text → Option Text → Api B Unit
  update_key_description key_id description = do
    id ← require key_id missing_parameter
    let d = or_text [] description
    raise_if (ltb 8192 (length d)) validation
    key ← find_key B env id
    raise_if (not ((get_metadata key).deletion_date == 0)) kms_invalid_state
    let m = get_metadata key
    expect internal_failure (save_key B env (set_metadata key (record m { description = d })))

  unfoldable pub get_key_policy : Option Text → Api B Text
  get_key_policy key_id = do
    id ← require key_id missing_parameter
    key ← find_key B env id
    pure (get_policy key)

  unfoldable pub put_key_policy : Option Text → Option Text → Option Text → Api B Unit
  put_key_policy key_id policy policy_name = do
    id ← require key_id validation
    p ← require policy validation
    raise_if (not (text_eq (or_text (codes "default") policy_name) (codes "default"))) validation
    raise_if (ltb 32768 (length p)) validation
    key ← get_key B env (ensure_arn env (codes "key/") id)
    expect internal_failure (save_key B env (set_policy key p))

  unfoldable pub list_all_keys : Option ℤ → Option Text → Api B (Page Key)
  list_all_keys limit marker = do
    let n = limit_or 100 limit
    raise_if (out_of_range n 1000) validation
    keys ←
        expect_list
          (list_keys B env (arn_prefix env ++ codes "key/") (suc (to_nat n)) (to_marker marker))
    pure (paginate get_arn (to_nat n) keys)
