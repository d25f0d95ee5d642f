-- ===== src/Handler/Responses.antt =====
-- The exceptions of handler/request_handler.go by their names, without the text of their messages,
-- and the replies.
use local_kms.Prelude.{ℕ, Text, Option, none, some, List}
use local_kms.Result.{Result, ok, err, panic}
use local_kms.Exec.{Exec}
use local_kms.Data.{DataError}
use local_kms.Data.Backend.{Backend}

pub data Exception : Type 0 where
  disabled missing_parameter not_found already_exists not_authorized validation : Exception
  invalid_alias_name kms_invalid_state invalid_key_usage invalid_ciphertext : Exception
  serialization access_denied unsupported_operation limit_exceeded : Exception
  invalid_import_token expired_import_token incorrect_key_material : Exception
  tag_exception invalid_marker invalid_signature internal_failure : Exception

unfoldable pub status_code : Exception → ℕ
status_code internal_failure = 500
status_code _ = 400

-- A page of a listing, with the marker of the next one if there are more results.
pub record Page (A : Type 0) : Type 0 where
  pub next_marker : Option Text
  pub items : List A

abbrev pub Api : Backend → Type 0 → Type 0
Api B A = Exec B.Store Exception A

-- A database error becomes the given exception.
abbrev pub as_exception : {A : Type 0} → Exception → Result DataError A → Result Exception A
as_exception x (ok a) = ok a
as_exception x (err e) = err x
as_exception x panic = panic

abbrev pub expect : {S A : Type 0} → Exception → Exec S DataError A → Exec S Exception A
expect x m d = let (r, d') = m d in (as_exception x r, d')

-- `if body.Field == nil { return exception }`
abbrev pub require : {S A : Type 0} → Option A → Exception → Exec S Exception A
require none x d = (err x, d)
require (some a) x d = (ok a, d)

-- The value of a database call whose error the handler only tests for.
abbrev pub attempt : {S A : Type 0} → Exec S DataError A → Exec S Exception (Option A)
attempt m d = elim (m d).0 [
  | ok a ↦ (ok (some a), (m d).1)
  | err e ↦ (ok none, (m d).1)
  | panic ↦ (panic, (m d).1)
]
