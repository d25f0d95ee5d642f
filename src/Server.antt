-- ===== src/Server.antt =====
-- src/server.go: which handler answers an HTTP request, and the answers where there is none.
pub mod Targets
pub mod Routing
pub mod Calls
pub mod Invariant
use local_kms.Prelude.{
  ℕ, ltb, ◌==◌, ◌||◌, not, Text, text_eq, contains, codes, Option, none, some, List, [], ◌∷◌, ◌++◌,
  if◌then◌else◌,
}
use local_kms.Handler.Operations.{Operation, method_by_name}

-- `handler.Response`: what a handler answers.
pub record Response : Type 0 where
  pub code : ℕ
  pub body : Text

-- An absent header is the empty text, as for `Header.Get`.
pub record HttpRequest : Type 0 where
  pub path : Text
  pub method : Text
  pub content_type : Text
  pub target : Text
  pub body : Text

-- The headers are those that the program sets.
pub record HttpResponse : Type 0 where
  pub status : ℕ
  pub headers : List (Text × Text)
  pub body : Text

abbrev pub dot : ℕ
dot = 46

-- `strings.Split(s, ".")`: the first part, and the others.
unfoldable pub split : Text → Text × List Text
split [] = ([], [])
split (x ∷ xs) =
    let (part, parts) = split xs in if x == dot then ([], part ∷ parts) else (x ∷ part, parts)

-- `target[1]`, if there are two parts.
abbrev pub second : Text × List Text → Option Text
second (part, []) = none
second (part, next ∷ parts) = some next

abbrev pub operation_of : Option Text → Option Operation
operation_of none = none
operation_of (some name) = method_by_name name

abbrev pub answer : ℕ → List (Text × Text) → Text → Option HttpResponse
answer status headers body = some (record { status = status; headers = headers; body = body })

-- `http.ResponseWriter.WriteHeader` panics on a code that is not of three digits.
unfoldable pub respond : List (Text × Text) → Response → Option HttpResponse
respond headers r = if ltb r.code 100 || ltb 999 r.code then none else answer r.code headers r.body

unfoldable pub respond_to : List (Text × Text) → Option Response → Option HttpResponse
respond_to headers none = none
respond_to headers (some r) = respond headers r

-- `call` runs a handler on the body of a request. `none` stands for a panic, in which the server closes
-- the connection.
module _ {S : Type 0} (call : Operation → Text → S → Option Response × S) (request_id : Text) where
  abbrev pub json_headers : List (Text × Text)
  json_headers =
      (codes "Content-Type", codes "application/x-amz-json-1.1")
      ∷ (codes "x-amzn-requestid", request_id)
      ∷ []

  -- The call of the method that was found, if one was.
  unfoldable pub run_method : Option Operation → HttpRequest → S → Option HttpResponse × S
  run_method none r s =
      let body = codes "Passed X-Amz-Target (" ++ r.target ++ codes ") is not implemented" in
      (answer 501 json_headers body, s)
  run_method (some operation) r s =
      let (response, t) = call operation r.body s in (respond_to json_headers response, t)

  unfoldable pub handle_request : HttpRequest → S → Option HttpResponse × S
  unfolding split text_eq contains method_by_name run_method
  handle_request r s =
      if not (text_eq r.path (codes "/"))
      then (answer 404 [] (codes "Page not found"), s)
      else if not (text_eq r.method (codes "POST"))
      then (answer 405 [] (codes "Method Not Allowed"), s)
      else if not (contains (codes "json") r.content_type)
      then (answer 415 [] (codes "Only JSON based content types accepted"), s)
      else run_method (operation_of (second (split r.target))) r s
