-- ===== src/Cmk/Errors.antt =====
-- The errors that the methods of keys return.

pub data CmkError : Type 0 where
  invalid_key_length material_mismatch rotation_limit : CmkError
  invalid_version ciphertext_too_short not_authentic arn_too_long : CmkError
  no_backing_keys unsupported_spec unsupported_algorithm oaep_failed : CmkError
  unsupported_usage generation_failed : CmkError
  invalid_signing_algorithm invalid_digest_length unknown_signing_algorithm : CmkError
  signing_failed malformed_signature : CmkError
