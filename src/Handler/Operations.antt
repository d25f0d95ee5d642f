-- ===== src/Handler/Operations.antt =====
-- The operations of the service: the exported methods of RequestHandler in handler/, which
-- src/server.go finds by name.
use local_kms.Prelude.{
  ◌≡◌, refl, sym, ap, ◌∙◌, ◌⊎◌, inl, inr, Bool, true, false, Text, text_eq, text_eq_iff, codes,
  Option, none, some, List, [], ◌∷◌, arith, if◌then◌else◌,
}

pub data Operation : Type 0 where
  cancel_key_deletion create_alias create_grant create_key : Operation
  decrypt delete_alias delete_imported_key_material describe_key : Operation
  disable_key disable_key_rotation enable_key enable_key_rotation : Operation
  encrypt generate_data_key generate_data_key_pair generate_data_key_pair_without_plaintext :
      Operation
  generate_data_key_without_plaintext generate_mac generate_random get_key_policy : Operation
  get_key_rotation_status get_parameters_for_import get_public_key import_key_material : Operation
  list_aliases list_grants list_keys list_resource_tags : Operation
  list_retirable_grants put_key_policy re_encrypt retire_grant : Operation
  revoke_grant rotate_key_on_demand schedule_key_deletion sign : Operation
  tag_resource untag_resource update_alias update_key_description : Operation
  verify verify_mac : Operation

-- The name of the method.
unfoldable pub method_name : Operation → Text
method_name Operation.cancel_key_deletion = codes "CancelKeyDeletion"
method_name Operation.create_alias = codes "CreateAlias"
method_name Operation.create_grant = codes "CreateGrant"
method_name Operation.create_key = codes "CreateKey"
method_name Operation.decrypt = codes "Decrypt"
method_name Operation.delete_alias = codes "DeleteAlias"
method_name Operation.delete_imported_key_material = codes "DeleteImportedKeyMaterial"
method_name Operation.describe_key = codes "DescribeKey"
method_name Operation.disable_key = codes "DisableKey"
method_name Operation.disable_key_rotation = codes "DisableKeyRotation"
method_name Operation.enable_key = codes "EnableKey"
method_name Operation.enable_key_rotation = codes "EnableKeyRotation"
method_name Operation.encrypt = codes "Encrypt"
method_name Operation.generate_data_key = codes "GenerateDataKey"
method_name Operation.generate_data_key_pair = codes "GenerateDataKeyPair"
method_name Operation.generate_data_key_pair_without_plaintext =
    codes "GenerateDataKeyPairWithoutPlaintext"
method_name Operation.generate_data_key_without_plaintext = codes "GenerateDataKeyWithoutPlaintext"
method_name Operation.generate_mac = codes "GenerateMac"
method_name Operation.generate_random = codes "GenerateRandom"
method_name Operation.get_key_policy = codes "GetKeyPolicy"
method_name Operation.get_key_rotation_status = codes "GetKeyRotationStatus"
method_name Operation.get_parameters_for_import = codes "GetParametersForImport"
method_name Operation.get_public_key = codes "GetPublicKey"
method_name Operation.import_key_material = codes "ImportKeyMaterial"
method_name Operation.list_aliases = codes "ListAliases"
method_name Operation.list_grants = codes "ListGrants"
method_name Operation.list_keys = codes "ListKeys"
method_name Operation.list_resource_tags = codes "ListResourceTags"
method_name Operation.list_retirable_grants = codes "ListRetirableGrants"
method_name Operation.put_key_policy = codes "PutKeyPolicy"
method_name Operation.re_encrypt = codes "ReEncrypt"
method_name Operation.retire_grant = codes "RetireGrant"
method_name Operation.revoke_grant = codes "RevokeGrant"
method_name Operation.rotate_key_on_demand = codes "RotateKeyOnDemand"
method_name Operation.schedule_key_deletion = codes "ScheduleKeyDeletion"
method_name Operation.sign = codes "Sign"
method_name Operation.tag_resource = codes "TagResource"
method_name Operation.untag_resource = codes "UntagResource"
method_name Operation.update_alias = codes "UpdateAlias"
method_name Operation.update_key_description = codes "UpdateKeyDescription"
method_name Operation.verify = codes "Verify"
method_name Operation.verify_mac = codes "VerifyMac"

-- The method set, which Go sorts by name.
unfoldable methods : List Operation
methods =
    Operation.cancel_key_deletion ∷ Operation.create_alias ∷ Operation.create_grant
    ∷ Operation.create_key ∷ Operation.decrypt ∷ Operation.delete_alias
    ∷ Operation.delete_imported_key_material ∷ Operation.describe_key ∷ Operation.disable_key
    ∷ Operation.disable_key_rotation ∷ Operation.enable_key ∷ Operation.enable_key_rotation
    ∷ Operation.encrypt ∷ Operation.generate_data_key ∷ Operation.generate_data_key_pair
    ∷ Operation.generate_data_key_pair_without_plaintext
    ∷ Operation.generate_data_key_without_plaintext ∷ Operation.generate_mac
    ∷ Operation.generate_random ∷ Operation.get_key_policy ∷ Operation.get_key_rotation_status
    ∷ Operation.get_parameters_for_import ∷ Operation.get_public_key ∷ Operation.import_key_material
    ∷ Operation.list_aliases ∷ Operation.list_grants ∷ Operation.list_keys
    ∷ Operation.list_resource_tags ∷ Operation.list_retirable_grants ∷ Operation.put_key_policy
    ∷ Operation.re_encrypt ∷ Operation.retire_grant ∷ Operation.revoke_grant
    ∷ Operation.rotate_key_on_demand ∷ Operation.schedule_key_deletion ∷ Operation.sign
    ∷ Operation.tag_resource ∷ Operation.untag_resource ∷ Operation.update_alias
    ∷ Operation.update_key_description ∷ Operation.verify ∷ Operation.verify_mac ∷ []

unfoldable named : Text → List Operation → Option Operation
unfolding method_name text_eq
named name [] = none
named name (o ∷ os) =
    let rest = named name os in if text_eq (method_name o) name then some o else rest

-- `reflect.ValueOf(h).MethodByName(name)`.
unfoldable pub method_by_name : Text → Option Operation
unfolding named methods
method_by_name name = named name methods

-- A method is found by its name, which no other has.
pub method_by_name-method_name : (o : Operation) → method_by_name (method_name o) ≡ some o
unfolding method_by_name named methods method_name text_eq
method_by_name-method_name Operation.verify = refl
method_by_name-method_name _ = refl

picked :
    (b : Bool) (p o : Operation) (rest : Option Operation)
    → (if b then some p else rest) ≡ some o
    → ((b ≡ true) × (p ≡ o)) ⊎ (rest ≡ some o)
picked true p o rest h = inl (refl, ground arith)
picked false p o rest h = inr h

name_of_named :
    (name : Text) (os : List Operation) (o : Operation)
    → named name os ≡ some o
    → name ≡ method_name o
unfolding named
name_of_named name [] o h = absurd (ground arith)
name_of_named name (p ∷ os) o h =
    elim (picked (text_eq (method_name p) name) p o (named name os) h) [
      | inl (same, e) ↦ sym ((text_eq_iff (method_name p) name).0 same) ∙ ap method_name e
      | inr later ↦ name_of_named name os o later
    ]

pub method_name_of_found :
    (name : Text) (o : Operation) → method_by_name name ≡ some o → name ≡ method_name o
unfolding method_by_name
method_name_of_found name o h = name_of_named name methods o h
