-- ===== src/Tests/Handler.antt =====
-- The handler on a request whose first attempt meets an overloaded provider.
use alzette.Shared.{◌*◌, eq_false→ne, none, false}
use alzette.Shared.Int.{is_neg}
use alzette.Gateway.Outcome.{atoi, second}
use alzette.Gateway.World.{ProviderError}
use alzette.Gateway.Attempt.{provider_failure}
use alzette.Gateway.Finish.{wait}
use alzette.Gateway.Finish.Overflow.{wait-overflow}
use alzette.Shared.{String, ◌≡◌, ◌⊎◌, refl, true, some, [], ◌∷◌, length}
use alzette.Shared.Int.{pos, at_most, wrap64}
use alzette.Shared.Dict.{get, put, has}
use alzette.Platform.{Route, has_scope}
use alzette.Memory.Defs.{find_model, find_route}
use alzette.Memory.Access.{authenticate, resolve_route}
use alzette.Memory.Ledger.{
  create_inference_request, set_inference_request_route, create_provider_attempt,
  complete_provider_attempt, complete_inference_request,
}
use alzette.Gateway.Outcome.{failure, AttemptResult}
use alzette.Gateway.Attempt.{perform_attempt}
use alzette.Gateway.Attempt.Effects.{SendsOnce, perform_attempt-SendsOnce}
use alzette.Gateway.Reply.{chat, Opened}
use alzette.Gateway.Finish.{attempt_loop, retry_delay, serve_attempts}
use alzette.Gateway.Finish.Rounds.{Rounds}
use alzette.Gateway.Finish.Attempts.{Adds, attempt_loop-Adds, retry_delay_capped}
use alzette.Gateway.Finish.Agreement.{Agrees, serve_attempts-Agrees}
use alzette.Gateway.Serve.{serve_http}
use alzette.Gateway.Serve.Entry.{Answers, serve_http_answer}
use alzette.Service.{memory_ops, memory_laws}
use alzette.Tests.Fixtures.{
  shop, caller, target_one, surroundings, settings, services, digest_of, post, fresh_world,
  fresh_id,
}

abbrev pub route : Route
route = record {
  id = "route_1";
  organisation_id = "org_1";
  project_id = "project_1";
  environment_id = "env_1";
  model_id = "model_1";
  model_alias = "general";
  model_version = "1";
  model_enabled = true;
  binding_generation = 7;
  enabled = true;
  target = target_one;
  created_at = 100;
  updated_at = 100;
}

abbrev opened : Opened
opened = record {
  protocol = chat;
  request_id = "req_0";
  started_at = 0;
  principal = caller;
  parsed = record {
    model = "general";
    encode = λ model. some "body";
    streaming = false;
    stream_encoder = λ protocol id model at. none;
  };
}

abbrev impatient : AttemptResult
impatient = record (failure "upstream_unavailable" 503 "") {
  retryable = true;
  retry_after = pos 3000000000;
  retry_after_set = true;
}

perform_attempt-SendsOnce_example :
    SendsOnce surroundings memory_ops settings "req_0" route 1 fresh_world
      (perform_attempt surroundings memory_ops settings "req_0" route "secret" "body" 1 fresh_world)
perform_attempt-SendsOnce_example =
    perform_attempt-SendsOnce surroundings memory_ops settings "req_0" route "secret" "body" 1
      fresh_world

retry_delay_capped_example :
    at_most
      (retry_delay surroundings memory_ops settings services impatient 1)
      settings.max_retry_delay
    ≡ true
retry_delay_capped_example =
    retry_delay_capped surroundings memory_ops settings services impatient 1

attempt_loop-Adds_example :
    let x =
      attempt_loop surroundings memory_ops settings services opened route "secret" "body" 2 1
        (failure "" 0 "")
        fresh_world in
    Adds surroundings memory_ops settings services "req_0" route 2 1 fresh_world x.1
    × Rounds surroundings memory_ops settings services
        (perform_attempt surroundings memory_ops settings "req_0" route "secret" "body")
        (λ v. false)
        2
        1
        fresh_world
        x
attempt_loop-Adds_example =
    attempt_loop-Adds surroundings memory_ops settings services opened route "secret" "body" 2 1
      (failure "" 0 "") fresh_world

serve_attempts-Agrees_example :
    Agrees surroundings memory_ops settings services memory_laws "req_0" (
      serve_attempts surroundings memory_ops settings services opened route "secret" "body"
        fresh_world)
serve_attempts-Agrees_example =
    serve_attempts-Agrees surroundings memory_ops settings services memory_laws opened route
      "secret" "body" fresh_world

serve_http_answer_example :
    let x = serve_http surroundings memory_ops settings services digest_of post fresh_world in
    ((x.1.store ≡ shop) × (x.0.body ≡ ""))
    ⊎ ((id : String) × (fresh_id 0 "req" ≡ some id)
        × Answers surroundings memory_ops settings services digest_of memory_laws id x)
serve_http_answer_example =
    serve_http_answer surroundings memory_ops settings services digest_of memory_laws post
      fresh_world

-- Two calls with a pause of the configured maximum between them, and the completion.
serve_http_test :
    let x = serve_http surroundings memory_ops settings services digest_of post fresh_world in
    (x.0.status ≡ 200)
    × (x.0.body ≡ "completion")
    × (x.1.pauses ≡ pos 2000000000 ∷ [])
    × (length x.1.sent ≡ 2)
unfolding serve_http authenticate get create_inference_request has has_scope resolve_route
    find_model find_route set_inference_request_route put perform_attempt create_provider_attempt
    complete_provider_attempt wrap64 complete_inference_request
serve_http_test = (refl, refl, refl, refl)

-- The provider asks for a pause of ten thousand million seconds.
abbrev closed : ProviderError
closed = record {
  status_code = 503;
  provider_request_id = "";
  billed_usage = none;
  retry_after = "10000000000";
}

long_lem : atoi closed.retry_after ≡ some (pos 10000000000)
unfolding atoi
long_lem = refl

wraps_lem : is_neg (wrap64 (10000000000 * second)) ≡ true
unfolding wrap64
wraps_lem = refl

wait-overflow_example :
    wait surroundings memory_ops settings services
      (retry_delay surroundings memory_ops settings services
        (provider_failure surroundings closed 0)
        1)
      fresh_world
    ≡ (false, fresh_world)
wait-overflow_example =
    wait-overflow surroundings memory_ops settings services closed 0 10000000000 1 fresh_world
      long_lem (eq_false→ne "10000000000" "" refl) wraps_lem
