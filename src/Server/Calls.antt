-- ===== src/Server/Calls.antt =====
-- The methods of RequestHandler, as src/server.go calls them: a body is decoded, the handler runs, and its
-- reply is encoded.
use local_kms.Prelude.{Text, Option, none, some, List, [], ◌∷◌}
use local_kms.Config.{Env}
use local_kms.Result.{Result, ok, err, panic}
use local_kms.Data.Backend.{Backend}
use local_kms.Handler.Operations.{Operation}
use local_kms.Handler.Responses.{Exception, status_code, serialization, internal_failure}
use local_kms.Handler.Session.{Libraries, Request, handle}
use local_kms.Cmk.Yaml.{Parsers}
use local_kms.Seed.{seed}
use local_kms.Seed.Reading.{SeedFile}
use local_kms.Server.{Response, HttpRequest, handle_request}

-- What a handler makes of a body: an input, which has no field set where the body cannot be decoded; a nil
-- pointer, for the body null; and, in Decrypt alone, a base64 text that is corrupt.
pub data Decoded : Operation → Type 0 where
  input : {operation : Operation} → Request operation → Decoded operation
  nil : {operation : Operation} → Decoded operation
  corrupt : Decoded Operation.decrypt

-- The JSON of requests and replies. The text of a reply is a function of what the handler works on.
pub record Json (B : Backend) : Type 0 where
  pub decode : (operation : Operation) → Text → Decoded operation
  pub reply : Env → {operation : Operation} → Request operation → B.Store → Text
  pub exception : Exception → Text

-- A handler answers 200 with its reply, or the status of an exception.
unfoldable pub to_response : Text → Result Exception Unit → Option Response
to_response text (ok u) = some (record { code = 200; body = text })
to_response text (err e) = some (record { code = status_code e; body = text })
to_response text panic = none

-- The first field that is read of a nil input panics; CreateKey draws its UUID before that.
unfoldable pub run_nil : Env → Operation → Result Exception Unit
run_nil env Operation.create_key = elim env.uuid [ none ↦ err internal_failure | some id ↦ panic ]
run_nil env _ = panic

module _ (B : Backend) (l : Libraries) (json : Json B) where
  unfoldable pub run_handler :
      Env → {operation : Operation} → Decoded operation → B.Store → Option Response × B.Store
  unfolding run_nil
  run_handler env (input r) d =
      let (result, d') = handle B l env r d in (to_response (json.reply env r d) result, d')
  run_handler env {operation} nil d =
      (to_response (json.exception internal_failure) (run_nil env operation), d)
  run_handler env corrupt d = (to_response (json.exception serialization) (err serialization), d)

  unfoldable pub call : Env → Operation → Text → B.Store → Option Response × B.Store
  unfolding run_handler
  call env operation body d = run_handler env (json.decode operation body) d

  -- HTTP requests one after another, each in its own surroundings and with its own request ID.
  unfoldable pub serve_http : List (Env × Text × HttpRequest) → B.Store → B.Store
  unfolding call
  serve_http [] d = d
  serve_http ((env, id, r) ∷ rs) d = serve_http rs (handle_request (call env) id r d).1

  -- The server from its start, with the seed file if there is one; a panic in the seeding ends the
  -- process. The health check before only reads.
  unfoldable pub run :
      Env → Parsers → Option SeedFile → List (Env × Text × HttpRequest) → B.Store → B.Store
  unfolding serve_http
  run env parsers file rs d =
      let (report, d') = seed B env parsers file d in
      elim report [ panic ↦ d' | _ ↦ serve_http rs d' ]
