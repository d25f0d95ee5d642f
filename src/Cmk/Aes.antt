-- ===== src/Cmk/Aes.antt =====
-- cmk/aes_key.go: symmetric keys, their rotation and the import of key material.
pub mod Rotation
use local_kms.Prelude.{
  ℕ, suc, ◌+◌, Bool, true, false, not, ltb, leb, ◌==◌, Text, text_eq, length, Option, none, some,
  List, [], ◌∷◌, ◌++◌, if◌then◌else◌,
}
use local_kms.Config.{Env}
use local_kms.Clock.{add_year}
use local_kms.Result.{Result, ok, err, ◌>>=◌, ◌>>◌, fail_if}
use local_kms.Cmk.{
  KeyMetadata, AesKey, ParametersForImport, KeyOrigin, KeyUsage, KeySpec, EncryptionAlgorithm,
  WrappingAlgorithm, is_external,
}
use local_kms.Cmk.Errors.{CmkError, invalid_key_length, material_mismatch, rotation_limit}

abbrev pub max_on_demand_key_rotations : ℕ
max_on_demand_key_rotations = 25

abbrev pub no_parameters : ParametersForImport
no_parameters = record {
  parameters_valid_to = 0;
  import_token = [];
  private_key = [];
  wrapping_algorithm = WrappingAlgorithm.unset;
}

-- `generateKey`: the i-th draw of 32 bytes for the key.
unfoldable pub generate_key : Env → Text → ℕ → Text
generate_key env arn i = env.random arn i 32

unfoldable pub new_aes_key : Env → KeyMetadata → Text → KeyOrigin → AesKey
new_aes_key env m policy origin = record {
  metadata = record m {
    key_usage = KeyUsage.encrypt_decrypt;
    key_spec = KeySpec.symmetric_default;
    customer_master_key_spec = KeySpec.symmetric_default;
    encryption_algorithms = EncryptionAlgorithm.symmetric_default ∷ [];
  };
  policy = policy;
  backing_keys = if is_external origin then [] else generate_key env m.arn 0 ∷ [];
  next_key_rotation = none;
  parameters_for_import = no_parameters;
  on_demand_rotation_count = 0;
}

import_into : List Text → Text → Result CmkError (List Text)
import_into [] m = ok (m ∷ [])
import_into (first ∷ rest) m = if text_eq m first then ok (first ∷ rest) else err material_mismatch

unfoldable pub import_key_material : AesKey → Text → Result CmkError AesKey
unfolding import_into
import_key_material k m = do
  fail_if (not (length m == 32)) invalid_key_length
  keys ← import_into k.backing_keys m
  ok (record k { backing_keys = keys })

-- `NextKeyRotation` is set and has passed.
abbrev pub due : Env → Option ℕ → Bool
due env none = false
due env (some t) = ltb t env.now

-- The Boolean says whether the key did rotate.
unfoldable pub rotate_if_needed : Env → AesKey → AesKey × Bool
unfolding generate_key
rotate_if_needed env k =
    if due env k.next_key_rotation
    then (
      record k {
        backing_keys = k.backing_keys ++ generate_key env k.metadata.arn 0 ∷ [];
        next_key_rotation = some (add_year env.now);
      },
      true,
    )
    else (k, false)

unfoldable pub rotate_on_demand : Env → AesKey → Result CmkError AesKey
unfolding generate_key
rotate_on_demand env k =
    if leb max_on_demand_key_rotations k.on_demand_rotation_count
    then err rotation_limit
    else ok (record k {
      backing_keys = k.backing_keys ++ generate_key env k.metadata.arn 1 ∷ [];
      on_demand_rotation_count = k.on_demand_rotation_count + 1;
    })
