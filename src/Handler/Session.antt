-- ===== src/Handler/Session.antt =====
-- Sequences of requests of any operation, as src/server.go hands them to the handlers.
pub mod Invariant
use local_kms.Prelude.{Text, Option, List, [], ◌∷◌, ℤ}
use local_kms.Config.{Env}
use local_kms.Exec.{Exec, pure, ◌>>◌}
use local_kms.Cmk.{
  WrappingAlgorithm, ExpirationModel, EncryptionAlgorithm, SigningAlgorithm, KeySpec,
}
use local_kms.Cmk.Context.{Context}
use local_kms.Cmk.Encryption.{Aead}
use local_kms.Cmk.Rsa.{Oaep}
use local_kms.Cmk.Hmac.{Hash}
use local_kms.Cmk.Signing.{Crypto}
use local_kms.Cmk.Generate.{Generators}
use local_kms.Data.Backend.{Backend}
use local_kms.Handler.Operations.{Operation}
use local_kms.Handler.Responses.{Api}
use local_kms.Handler.Keys
use local_kms.Handler.Keys.{CreateKeyInput, DefaultPolicy}
use local_kms.Handler.KeyState
use local_kms.Handler.Rotation
use local_kms.Handler.Import
use local_kms.Handler.Import.{Wrapping}
use local_kms.Handler.Tags
use local_kms.Handler.Tags.{TagInput}
use local_kms.Handler.Aliases
use local_kms.Handler.Grants
use local_kms.Handler.Grants.{CreateGrantInput}
use local_kms.Handler.Crypto
use local_kms.Handler.DataKeys
use local_kms.Handler.Mac
use local_kms.Handler.Signing
use local_kms.Handler.Signing.{Encodings, MessageType}

-- What the handlers take from Go's libraries, and the default policies of keys.
pub record Libraries : Type 0 where
  pub generators : Generators
  pub wrapping : Wrapping
  pub default_policy : DefaultPolicy
  pub aead : Aead
  pub oaep : Oaep
  pub keyed_hash : Hash → Text → Text → Text
  pub crypto : Crypto
  pub encodings : Encodings
  pub base64 : Text → Text

-- The decoded body of a request of an operation.
pub data Request : Operation → Type 0 where
  enable_key : Option Text → Request Operation.enable_key
  disable_key : Option Text → Request Operation.disable_key
  cancel_key_deletion : Option Text → Request Operation.cancel_key_deletion
  schedule_key_deletion : Option Text → Option ℤ → Request Operation.schedule_key_deletion
  enable_key_rotation : Option Text → Request Operation.enable_key_rotation
  disable_key_rotation : Option Text → Request Operation.disable_key_rotation
  rotate_key_on_demand : Option Text → Request Operation.rotate_key_on_demand
  get_key_rotation_status : Option Text → Request Operation.get_key_rotation_status
  get_parameters_for_import :
      Option Text → WrappingAlgorithm → Text → Request Operation.get_parameters_for_import
  import_key_material :
      Option Text
      → Option Text
      → Option Text
      → Option ExpirationModel
      → Option ℤ
      → Request Operation.import_key_material
  delete_imported_key_material : Option Text → Request Operation.delete_imported_key_material
  create_key : CreateKeyInput → Request Operation.create_key
  describe_key : Option Text → Request Operation.describe_key
  update_key_description : Option Text → Option Text → Request Operation.update_key_description
  get_key_policy : Option Text → Request Operation.get_key_policy
  put_key_policy : Option Text → Option Text → Option Text → Request Operation.put_key_policy
  list_keys : Option ℤ → Option Text → Request Operation.list_keys
  create_alias : Option Text → Option Text → Request Operation.create_alias
  update_alias : Option Text → Option Text → Request Operation.update_alias
  delete_alias : Option Text → Request Operation.delete_alias
  list_aliases : Option Text → Option ℤ → Option Text → Request Operation.list_aliases
  tag_resource : Option Text → Option (List TagInput) → Request Operation.tag_resource
  untag_resource : Option Text → Option (List Text) → Request Operation.untag_resource
  list_resource_tags : Option Text → Option ℤ → Option Text → Request Operation.list_resource_tags
  create_grant : CreateGrantInput → Request Operation.create_grant
  retire_grant : Option Text → Option Text → Option Text → Request Operation.retire_grant
  revoke_grant : Option Text → Option Text → Request Operation.revoke_grant
  list_grants :
      Option Text
      → Option Text
      → Option Text
      → Option Text
      → Option ℤ
      → Option Text
      → Request Operation.list_grants
  list_retirable_grants :
      Option Text → Option Text → Option ℤ → Option Text → Request Operation.list_retirable_grants
  encrypt : Option Text → Text → Context → EncryptionAlgorithm → Request Operation.encrypt
  decrypt : Option Text → Text → Context → EncryptionAlgorithm → Request Operation.decrypt
  re_encrypt :
      Option Text
      → Option Text
      → Text
      → Context
      → Context
      → EncryptionAlgorithm
      → EncryptionAlgorithm
      → Request Operation.re_encrypt
  generate_data_key :
      Option Text → Option Text → Option ℤ → Context → Request Operation.generate_data_key
  generate_data_key_without_plaintext :
      Option Text
      → Option Text
      → Option ℤ
      → Context
      → Request Operation.generate_data_key_without_plaintext
  generate_data_key_pair :
      Option Text → KeySpec → Context → Request Operation.generate_data_key_pair
  generate_data_key_pair_without_plaintext :
      Option Text → KeySpec → Context → Request Operation.generate_data_key_pair_without_plaintext
  generate_random : Option ℤ → Request Operation.generate_random
  generate_mac :
      Option Text → Option Text → Option SigningAlgorithm → Request Operation.generate_mac
  verify_mac :
      Option Text
      → Option Text
      → Option Text
      → Option SigningAlgorithm
      → Request Operation.verify_mac
  sign : Option Text → Option Text → MessageType → Option SigningAlgorithm → Request Operation.sign
  verify :
      Option Text
      → Option Text
      → Option Text
      → MessageType
      → Option SigningAlgorithm
      → Request Operation.verify
  get_public_key : Option Text → Request Operation.get_public_key

module _ (B : Backend) (l : Libraries) where
  -- The reply is left out.
  abbrev done : {A : Type 0} → Api B A → Api B Unit
  done m = m >> pure tt

  unfoldable pub handle : Env → {operation : Operation} → Request operation → Api B Unit
  handle env (Request.enable_key id) = done (KeyState.enable_key B env id)
  handle env (Request.disable_key id) = done (KeyState.disable_key B env id)
  handle env (Request.cancel_key_deletion id) = done (KeyState.cancel_key_deletion B env id)
  handle env (Request.schedule_key_deletion id days) =
      done (KeyState.schedule_key_deletion B env id days)
  handle env (Request.enable_key_rotation id) = Rotation.enable_key_rotation B env id
  handle env (Request.disable_key_rotation id) = Rotation.disable_key_rotation B env id
  handle env (Request.rotate_key_on_demand id) = done (Rotation.rotate_key_on_demand B env id)
  handle env (Request.get_key_rotation_status id) = done (Rotation.get_key_rotation_status B env id)
  handle env (Request.get_parameters_for_import id algorithm spec) =
      done (Import.get_parameters_for_import B env l.wrapping id algorithm spec)
  handle env (Request.import_key_material id token material model valid_to) =
      done (Import.import_key_material B env l.wrapping id token material model valid_to)
  handle env (Request.delete_imported_key_material id) =
      done (Import.delete_imported_key_material B env id)
  handle env (Request.create_key body) =
      done (Keys.create_key B env l.generators l.default_policy body)
  handle env (Request.describe_key id) = done (Keys.describe_key B env id)
  handle env (Request.update_key_description id d) = Keys.update_key_description B env id d
  handle env (Request.get_key_policy id) = done (Keys.get_key_policy B env id)
  handle env (Request.put_key_policy id policy name) = Keys.put_key_policy B env id policy name
  handle env (Request.list_keys n marker) = done (Keys.list_all_keys B env n marker)
  handle env (Request.create_alias target name) = Aliases.create_alias B env target name
  handle env (Request.update_alias target name) = Aliases.update_alias B env target name
  handle env (Request.delete_alias name) = Aliases.delete_alias B env name
  handle env (Request.list_aliases id n marker) = done (Aliases.list_aliases B env id n marker)
  handle env (Request.tag_resource id tags) = Tags.tag_resource B env id tags
  handle env (Request.untag_resource id names) = Tags.untag_resource B env id names
  handle env (Request.list_resource_tags id n marker) =
      done (Tags.list_resource_tags B env id n marker)
  handle env (Request.create_grant body) = done (Grants.create_grant B env l.base64 body)
  handle env (Request.retire_grant token id grant_id) = Grants.retire_grant B env token id grant_id
  handle env (Request.revoke_grant id grant_id) = Grants.revoke_grant B env id grant_id
  handle env (Request.list_grants id grant_id grantee service n marker) =
      done (Grants.list_key_grants B env id grant_id grantee service n marker)
  handle env (Request.list_retirable_grants principal service n marker) =
      done (Grants.list_retirable_grants B env principal service n marker)
  handle env (Request.encrypt id plaintext context algorithm) =
      done (Crypto.encrypt B env l.aead l.oaep id plaintext context algorithm)
  handle env (Request.decrypt id blob context algorithm) =
      done (Crypto.decrypt B env l.aead l.oaep id blob context algorithm)
  handle env (Request.re_encrypt from to blob c d a b) =
      done (Crypto.re_encrypt B env l.aead l.oaep from to blob c d a b)
  handle env (Request.generate_data_key id spec n context) =
      done (DataKeys.generate_data_key B env l.aead id spec n context)
  handle env (Request.generate_data_key_without_plaintext id spec n context) =
      done (DataKeys.generate_data_key_without_plaintext B env l.aead id spec n context)
  handle env (Request.generate_data_key_pair id spec context) =
      done (DataKeys.generate_data_key_pair B env l.aead l.generators l.encodings id spec context)
  handle env (Request.generate_data_key_pair_without_plaintext id spec context) = done (
      DataKeys.generate_data_key_pair_without_plaintext B env l.aead l.generators l.encodings id
        spec context)
  handle env (Request.generate_random n) = done (DataKeys.generate_random env n)
  handle env (Request.generate_mac id message algorithm) =
      done (Mac.generate_mac B env l.keyed_hash id message algorithm)
  handle env (Request.verify_mac id message code algorithm) =
      done (Mac.verify_mac B env l.keyed_hash id message code algorithm)
  handle env (Request.sign id message kind algorithm) =
      done (Signing.sign B env l.crypto id message kind algorithm)
  handle env (Request.verify id signature message kind algorithm) =
      done (Signing.verify B env l.crypto id signature message kind algorithm)
  handle env (Request.get_public_key id) = done (Signing.get_public_key B env l.encodings id)

  -- Requests one after another, each in its own surroundings. The state that a request leaves is the
  -- next one's, also when it ended in an exception.
  unfoldable pub serve :
      List (Env × (operation : Operation) × Request operation) → B.Store → B.Store
  unfolding handle
  serve [] d = d
  serve ((env, operation, r) ∷ rs) d = serve rs (handle env r d).1
