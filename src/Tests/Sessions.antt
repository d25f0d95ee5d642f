-- ===== src/Tests/Sessions.antt =====
-- Sequences of requests, and HTTP requests, in memory.
use local_kms.Prelude.{codes, text_eq, if◌then◌else◌, Text, List, [], ◌∷◌, ◌++◌, none, some, pos}
use local_kms.Config.{Env}
use local_kms.Data.Keys.Sound.{IsSound}
use local_kms.Handler.Operations.{Operation}
use local_kms.Handler.Session.{Libraries, Request, serve}
use local_kms.Handler.Session.Invariant.{serve-AllConsistent}
use local_kms.Handler.Consistency.{IsConsistent}
use local_kms.Server.{HttpRequest, handle_request}
use local_kms.Server.Calls.{Json, Decoded, input, nil, call, run}
use local_kms.Server.Routing.{Answered, handle_request_lem}
use local_kms.Server.Invariant.{run-AllConsistent}
use local_kms.Tests.Memory.{memory, toy_gcm, toy_oaep}
use local_kms.Tests.Samples.{no_wrapping, empty_policy, env, store}
use local_kms.Tests.Handlers.{memory-Apart, store-AllConsistent}
use local_kms.Tests.Signing.{toy_crypto}
use local_kms.Tests.Seeds.{no_parsers, file}
use local_kms.Tests.DataKeys.{toy_generators, toy_encodings}

abbrev toy_libraries : Libraries
toy_libraries = record {
  generators = toy_generators;
  wrapping = no_wrapping;
  default_policy = empty_policy;
  aead = toy_gcm;
  oaep = toy_oaep;
  keyed_hash = λ h k message. k ++ message;
  crypto = toy_crypto;
  encodings = toy_encodings;
  base64 = λ t. t;
}

abbrev requests : List (Env × (operation : Operation) × Request operation)
requests =
    (env, _, Request.schedule_key_deletion (some (codes "k1")) (some (pos 7)))
    ∷ (env, _, Request.create_alias (some (codes "k1")) (some (codes "alias/a2")))
    ∷ (env, _, Request.cancel_key_deletion (some (codes "k1")))
    ∷ (env, _, Request.enable_key (some (codes "alias/a1")))
    ∷ (env, _, Request.list_keys none none)
    ∷ []

serve-AllConsistent_example :
    IsSound memory IsConsistent (serve memory toy_libraries requests store)
serve-AllConsistent_example =
    serve-AllConsistent memory toy_libraries memory-Apart requests store store-AllConsistent

-- Two operations that can be decoded.
abbrev toy_decode : (operation : Operation) → Text → Decoded operation
toy_decode Operation.create_alias body =
    if text_eq body (codes "null")
    then nil
    else input (Request.create_alias (some (codes "k1")) (some body))
toy_decode Operation.disable_key body =
    if text_eq body (codes "null") then nil else input (Request.disable_key (some body))
toy_decode _ body = nil

abbrev toy_json : Json memory
toy_json = record {
  decode = toy_decode;
  reply = λ env r d. codes "{}";
  exception = λ x. codes "{}";
}

abbrev disable_request : HttpRequest
disable_request = record {
  path = codes "/";
  method = codes "POST";
  content_type = codes "application/json";
  target = codes "TrentService.DisableKey";
  body = codes "k1";
}

abbrev elsewhere : HttpRequest
elsewhere = record disable_request { path = codes "/keys" }

abbrev null_request : HttpRequest
null_request = record disable_request { body = codes "null" }

handle_request_lem_example :
    Answered
      (call memory toy_libraries toy_json env)
      (codes "id")
      disable_request
      store
      (handle_request (call memory toy_libraries toy_json env) (codes "id") disable_request store)
handle_request_lem_example =
    handle_request_lem (call memory toy_libraries toy_json env) (codes "id") disable_request store

abbrev http_requests : List (Env × Text × HttpRequest)
http_requests =
    (env, codes "1", disable_request)
    ∷ (env, codes "2", elsewhere)
    ∷ (env, codes "3", null_request)
    ∷ []

run-AllConsistent_example :
    IsSound memory IsConsistent
      (run memory toy_libraries toy_json env no_parsers (some file) http_requests store)
run-AllConsistent_example =
    run-AllConsistent memory toy_libraries toy_json memory-Apart env no_parsers (some file)
      http_requests store store-AllConsistent
