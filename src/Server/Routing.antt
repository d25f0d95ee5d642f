-- ===== src/Server/Routing.antt =====
-- Which requests reach a handler of src/server.go.
use local_kms.Prelude.{
  ◌≡◌, refl, ◌≢◌, ◌⊎◌, inl, inr, true, false, ℕ, Text, text_eq, text_eq_iff, contains, codes,
  Option, none, some, List, Bool, not, if◌then◌else◌, ap, arith,
}
use local_kms.Server.{
  Response, HttpRequest, HttpResponse, answer, respond_to, json_headers, run_method, handle_request,
  operation_of, second, split,
}
use local_kms.Handler.Operations.{
  Operation, method_name, method_by_name-method_name, method_name_of_found,
}
use local_kms.Server.Targets.{Names, Names-second, second-Names}

-- A request to the root, by POST, with JSON.
pub record Acceptable (r : HttpRequest) : Type 0 where
  pub at_root : r.path ≡ codes "/"
  pub by_post : r.method ≡ codes "POST"
  pub has_json : contains (codes "json") r.content_type ≡ true

-- Why a request is answered with a status of the server's own.
pub data Refused (r : HttpRequest) : ℕ → Type 0 where
  elsewhere : r.path ≢ codes "/" → Refused r 404
  not_post : r.path ≡ codes "/" → r.method ≢ codes "POST" → Refused r 405
  not_json :
      r.path ≡ codes "/"
      → r.method ≡ codes "POST"
      → contains (codes "json") r.content_type ≡ false
      → Refused r 415
  no_operation : Acceptable r → ((o : Operation) → ¬ Names r.target (method_name o)) → Refused r 501

same : (a b : Text) → text_eq a b ≡ true → a ≡ b
same a b h = (text_eq_iff a b).0 h

different : (a b : Text) → text_eq a b ≡ false → a ≢ b
different a b h e = absurd (ground (arith, text_eq_iff a b))

named_by :
    (part : Option Text) (o : Operation) → operation_of part ≡ some o → part ≡ some (method_name o)
named_by none o h = absurd (ground arith)
named_by (some name) o h = ap some (method_name_of_found name o h)

found-Names :
    (target : Text) (o : Operation)
    → operation_of (second (split target)) ≡ some o
    → Names target (method_name o)
found-Names target o h = Names-second target (method_name o) (named_by (second (split target)) o h)

missing-Names :
    (target : Text)
    → operation_of (second (split target)) ≡ none
    → (o : Operation) → ¬ Names target (method_name o)
missing-Names target h o n =
    let found : operation_of (second (split target)) ≡ some o =
      rw (second-Names target (method_name o) n) (method_by_name-method_name o) in
    absurd (ground arith)

module _ {S : Type 0} (call : Operation → Text → S → Option Response × S) (request_id : Text) where
  -- The answer comes from the handler of the operation, run on the body and the state.
  pub record Run (r : HttpRequest) (s : S) (out : Option HttpResponse × S) : Type 0 where
    pub operation : Operation
    pub acceptable : Acceptable r
    pub is_named : Names r.target (method_name operation)
    pub reply : out.0 ≡ respond_to (json_headers call request_id) (call operation r.body s).0
    pub state : out.1 ≡ (call operation r.body s).1

  -- The answer is the server's own, and the state is what it was.
  pub record Turned (r : HttpRequest) (s : S) (out : Option HttpResponse × S) : Type 0 where
    pub response : HttpResponse
    pub why : Refused r response.status
    pub reply : out.0 ≡ some response
    pub state : out.1 ≡ s

  abbrev pub Answered : HttpRequest → S → Option HttpResponse × S → Type 0
  Answered r s out = Run r s out ⊎ Turned r s out

  turned :
      {r : HttpRequest} {status : ℕ} (s : S) (headers : List (Text × Text)) (body : Text)
      → Refused r status
      → Answered r s (answer status headers body, s)
  turned {status = status} s headers body why = inr record {
    response = record { status = status; headers = headers; body = body };
    why = why;
    reply = refl;
    state = refl;
  }

  run_method_lem :
      (found : Option Operation) (r : HttpRequest) (s : S)
      → Acceptable r
      → operation_of (second (split r.target)) ≡ found
      → Answered r s (run_method call request_id found r s)
  unfolding run_method
  run_method_lem none r s good h = turned s _ _ (no_operation good (missing-Names r.target h))
  run_method_lem (some o) r s good h = inl record {
    operation = o;
    acceptable = good;
    is_named = found-Names r.target o h;
    reply = refl;
    state = refl;
  }

  -- A test with an early return.
  tested :
      {r : HttpRequest} {s : S} (b : Bool) {refusal rest : Option HttpResponse × S}
      → (b ≡ false → Answered r s refusal)
      → (b ≡ true → Answered r s rest)
      → Answered r s (if not b then refusal else rest)
  tested true refused passed = passed refl
  tested false refused passed = refused refl

  -- A request to the path /, by POST and with a content type that contains json, whose target has the
  -- name of a method between its first dot and the next one, or the end, is answered by this method,
  -- run on the body and the state. Any other leaves the state as it is, and is answered 404 if the path
  -- is another, or else 405 if it is not a POST, or else 415 if the content type has no json, or else
  -- 501.
  pub handle_request_lem :
      (r : HttpRequest) (s : S) → Answered r s (handle_request call request_id r s)
  unfolding handle_request
  handle_request_lem r s =
      tested _ (λ a. turned s _ _ (elsewhere (different r.path (codes "/") a)))
        λ a.
          let at_root = same r.path (codes "/") a in
          tested _ (λ b. turned s _ _ (not_post at_root (different r.method (codes "POST") b)))
            λ b.
              let by_post = same r.method (codes "POST") b in
              tested _ (λ c. turned s _ _ (not_json at_root by_post c))
                λ c.
                  run_method_lem _ r s
                    (record { at_root = at_root; by_post = by_post; has_json = c }) refl
