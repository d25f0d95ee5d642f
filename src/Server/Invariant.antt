-- ===== src/Server/Invariant.antt =====
-- The consistency of stored keys over HTTP requests.
use local_kms.Prelude.{List, [], ◌∷◌, Text, inl, inr, Option}
use local_kms.Config.{Env}
use local_kms.Data.Backend.{Backend}
use local_kms.Data.Keys.Sound.{IsSound}
use local_kms.Handler.Consistency.{IsConsistent}
use local_kms.Handler.Operations.{Operation}
use local_kms.Handler.Keeping.Storage.{Apart}
use local_kms.Handler.Session.{Libraries}
use local_kms.Handler.Session.Invariant.{handle-Keeps}
use local_kms.Cmk.Yaml.{Parsers}
use local_kms.Result.{panic}
use local_kms.Seed.{seed}
use local_kms.Seed.Reading.{SeedFile}
use local_kms.Seed.Invariant.{seed-AllConsistent}
use local_kms.Server.{HttpRequest, HttpResponse, handle_request}
use local_kms.Server.Calls.{Json, Decoded, input, nil, corrupt, run_handler, call, serve_http, run}
use local_kms.Server.Routing.{Answered, handle_request_lem}

module _ (B : Backend) (l : Libraries) (json : Json B) (apart : Apart B) where
  run_handler-IsSound :
      (env : Env) {o : Operation} (r : Decoded o) (d : B.Store)
      → IsSound B IsConsistent d
      → IsSound B IsConsistent (run_handler B l json env r d).1
  unfolding run_handler
  run_handler-IsSound env nil d h = h
  run_handler-IsSound env corrupt d h = h
  run_handler-IsSound env (input r) d h = (handle-Keeps B l apart env r).after d h

  call-IsSound :
      (env : Env) (o : Operation) (body : Text) (d : B.Store)
      → IsSound B IsConsistent d
      → IsSound B IsConsistent (call B l json env o body d).1
  unfolding call
  call-IsSound env o body d h = run_handler-IsSound env (json.decode o body) d h

  Answered-IsSound :
      (env : Env) (id : Text) (r : HttpRequest) (d : B.Store) (out : Option HttpResponse × B.Store)
      → IsSound B IsConsistent d
      → Answered (call B l json env) id r d out
      → IsSound B IsConsistent out.1
  Answered-IsSound env id r d out h (inl run) =
      rw run.state (call-IsSound env run.operation r.body d h)
  Answered-IsSound env id r d out h (inr turned) = rw turned.state h

  -- Whatever HTTP requests the server answers, at whatever times and with whatever failures of the disk,
  -- all keys in the store are consistent if they were, and if what can be read as a key of the text of an
  -- alias, a tag or a grant, if anything, is consistent.
  serve_http-AllConsistent :
      (rs : List (Env × Text × HttpRequest)) (d : B.Store)
      → IsSound B IsConsistent d
      → IsSound B IsConsistent (serve_http B l json rs d)
  unfolding serve_http
  serve_http-AllConsistent [] d h = h
  serve_http-AllConsistent ((env, id, r) ∷ rs) d h =
      serve_http-AllConsistent rs (handle_request (call B l json env) id r d).1 (
        Answered-IsSound env id r d (handle_request (call B l json env) id r d) h
          (handle_request_lem (call B l json env) id r d))

  -- A server that starts on a store whose keys are all consistent, reads whatever seed file, or none, and
  -- then answers whatever HTTP requests, at whatever times and with whatever failures of the disk, leaves
  -- all keys in the store consistent, if what can be read as a key of the text of an alias, a tag or a
  -- grant, if anything, is consistent.
  pub run-AllConsistent :
      (env : Env) (parsers : Parsers) (file : Option SeedFile)
      (rs : List (Env × Text × HttpRequest)) (d : B.Store)
      → IsSound B IsConsistent d
      → IsSound B IsConsistent (run B l json env parsers file rs d)
  unfolding run
  run-AllConsistent env parsers file rs d h =
      elim (seed B env parsers file d).0
        as (λ report. IsSound B IsConsistent (elim report [
          | panic ↦ (seed B env parsers file d).1
          | _ ↦ serve_http B l json rs (seed B env parsers file d).1
        ])) [
          | panic ↦ seed-AllConsistent B env apart parsers file d h
          | _ ↦
              serve_http-AllConsistent rs (seed B env parsers file d).1
                (seed-AllConsistent B env apart parsers file d h)
        ]
