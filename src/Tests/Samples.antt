-- ===== src/Tests/Samples.antt =====
-- The surroundings, keys and stores that the examples share.
use local_kms.Prelude.{ℕ, zero, suc, true, false, Text, codes, none, some, [], ◌∷◌}
use local_kms.Config.{Env}
use local_kms.Cmk.{
  AesKey, HmacKey, KeyMetadata, KeyState, KeyUsage, KeySpec, KeyOrigin, ExpirationModel,
  EncryptionAlgorithm, WrappingAlgorithm, aes, ParametersForImport,
}
use local_kms.Cmk.Generate.{Generators}
use local_kms.Handler.Keys.{DefaultPolicy}
use local_kms.Handler.Import.{Wrapping}
use local_kms.Data.{Alias, Grant}
use local_kms.Tests.Memory.{Store, key, alias}

abbrev pub replicate : ℕ → ℕ → Text
replicate zero c = []
replicate (suc n) c = c ∷ replicate n c

-- In November 2023, with a gigabyte free; the i-th draw is all i.
abbrev pub env : Env
env = record {
  aws_region = codes "eu-west-2";
  aws_account_id = codes "111122223333";
  now = 1700000000000000000;
  statfs = some (1000000, 1024);
  random = λ owner i n. replicate n i;
  uuid = some (codes "k9");
}

abbrev pub key_arn : Text
key_arn = codes "arn:aws:kms:eu-west-2:111122223333:key/k1"

abbrev pub metadata : KeyMetadata
metadata = record {
  aws_account_id = codes "111122223333";
  arn = key_arn;
  creation_date = 1600000000000000000;
  deletion_date = 0;
  description = [];
  enabled = true;
  expiration_model = ExpirationModel.unset;
  key_id = codes "k1";
  key_manager = codes "CUSTOMER";
  key_state = KeyState.enabled;
  key_usage = KeyUsage.encrypt_decrypt;
  multi_region = false;
  origin = KeyOrigin.aws_kms;
  valid_to = 0;
  signing_algorithms = [];
  encryption_algorithms = EncryptionAlgorithm.symmetric_default ∷ [];
  mac_algorithms = [];
  key_spec = KeySpec.symmetric_default;
  customer_master_key_spec = KeySpec.symmetric_default;
}

abbrev pub no_parameters : ParametersForImport
no_parameters = record {
  parameters_valid_to = 0;
  import_token = [];
  private_key = [];
  wrapping_algorithm = WrappingAlgorithm.unset;
}

-- Its rotation is due.
abbrev pub aes_key : AesKey
aes_key = record {
  metadata = metadata;
  policy = [];
  backing_keys = replicate 32 7 ∷ [];
  next_key_rotation = some 1650000000000000000;
  parameters_for_import = no_parameters;
  on_demand_rotation_count = 24;
}

-- It waits for its material.
abbrev pub empty_key : AesKey
empty_key = record aes_key {
  metadata = record metadata {
    origin = KeyOrigin.external;
    key_state = KeyState.pending_import;
    enabled = false;
  };
  backing_keys = [];
  next_key_rotation = none;
}

abbrev pub hmac_key : HmacKey
hmac_key = record {
  metadata = record metadata {
    key_spec = KeySpec.hmac_256;
    key_usage = KeyUsage.generate_verify_mac;
  };
  policy = [];
  backing_keys = replicate 32 7 ∷ replicate 32 8 ∷ [];
  next_key_rotation = some 1650000000000000000;
  parameters_for_import = no_parameters;
}

abbrev pub alias_arn : Text
alias_arn = codes "arn:aws:kms:eu-west-2:111122223333:alias/a1"

abbrev pub alias_a1 : Alias
alias_a1 = record {
  alias_arn = alias_arn;
  alias_name = codes "alias/a1";
  target_key_id = codes "k1";
  creation_date = 1600000000000000000;
  last_updated_date = 1600000000000000000;
}

abbrev pub grant_g1 : Grant
grant_g1 = record {
  grant_id = codes "g1";
  grant_token = codes "t1";
  name = codes "n1";
  key_arn = key_arn;
  grantee_principal = codes "p1";
  grantee_service_principal = [];
  retiring_principal = codes "p2";
  retiring_service_principal = [];
  operations = codes "Encrypt" ∷ [];
  constraints = none;
  creation_date = 1600000000000000000;
}

abbrev pub store : Store
store = (key_arn, key (aes aes_key)) ∷ (alias_arn, alias alias_a1) ∷ []

abbrev pub no_generators : Generators
no_generators = record { generate_ecdsa = λ e c. none; generate_rsa = λ e n. none }

abbrev pub empty_policy : DefaultPolicy
empty_policy = record { policy_for = λ account. [] }

-- The wrapped text is the text.
abbrev pub no_wrapping : Wrapping
no_wrapping = record {
  generate = λ e. some [];
  public_key = λ key. some key;
  unwrap = λ key a text. some text;
}
