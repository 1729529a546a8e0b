-- ===== src/Tests/Ledger.antt =====
-- The ledger's theorems on a request that is entered, bound, tried and completed.
use alzette.Shared.{ℕ, String, ◌≡◌, refl, Option, none, some}
use alzette.Shared.Dict.{get, put, has}
use alzette.Platform.{InferenceRequest}
use alzette.Memory.Ledger.{
  started_request, create_inference_request, may_bind, is_unbound, set_inference_request_route,
  complete_inference_request, started_attempt, fits_request, create_provider_attempt,
  complete_provider_attempt,
}
use alzette.Memory.Calls.{step, run}
use alzette.Memory.Calls.Transition.{Transition, step-Transition}
use alzette.Memory.Calls.Invariant.{IsSound, run-IsSound}
use alzette.Memory.Calls.Lifecycle.{Later, run-Later}
use alzette.Gateway.Serve.{serve_http}
use alzette.Service.{memory_ops}
use alzette.Service.Ledger.{Preserves, serve_http-Preserves}
use alzette.Tests.Fixtures.{
  shop, start_one, opening, closing, surroundings, settings, services, digest_of, post, fresh_world,
}
use alzette.Memory.Calls.{begin}

shop-IsSound : IsSound shop
unfolding get
shop-IsSound = record {
  keyed = λ k r h. cc;
  attempt_keyed = λ k a h. cc;
  owned = λ k a h. cc;
  distinct = λ k l a b h. cc;
  gapless = λ i r h. cc;
}

step-Transition_example : Transition shop (begin start_one) (step shop (begin start_one))
step-Transition_example = step-Transition shop (begin start_one)

run-IsSound_example : IsSound (run shop opening)
run-IsSound_example = run-IsSound shop opening shop-IsSound

abbrev opened : InferenceRequest
opened = record (started_request start_one) {
  route_id = "route_1";
  bound_target_id = "target_1";
  bound_model_id = "model_1";
  route_binding_generation = 7;
  attempt_count = 1;
}

opened_lem : get (run shop opening).requests "req_0" ≡ some opened
unfolding get put has run step create_inference_request started_request may_bind is_unbound
    set_inference_request_route started_attempt fits_request create_provider_attempt
opened_lem = refl

opened-IsSound : IsSound (run shop opening)
opened-IsSound = run-IsSound shop opening shop-IsSound

run-Later_example :
    (q : InferenceRequest) × (get (run (run shop opening) closing).requests "req_0" ≡ some q)
    × Later opened q
run-Later_example = run-Later (run shop opening) closing "req_0" opened opened-IsSound opened_lem

-- The whole sequence completes the request, and a further attempt is refused.
completed_test :
    elim (get (run (run shop opening) closing).requests "req_0") as (λ _. Option (String × ℕ)) [
      | none ↦ none
      | some r ↦ some (r.status, r.attempt_count)
    ]
    ≡ some ("succeeded", 1)
unfolding get put has run step create_inference_request started_request may_bind is_unbound
    set_inference_request_route started_attempt fits_request create_provider_attempt
    complete_provider_attempt complete_inference_request
completed_test = refl

serve_http-Preserves_example :
    Preserves "req_0" opened
      (serve_http surroundings memory_ops settings services digest_of post
        (record fresh_world { store = run shop opening })).1.store
serve_http-Preserves_example =
    serve_http-Preserves surroundings settings services digest_of post
      (record fresh_world { store = run shop opening }) "req_0" opened opened-IsSound opened_lem
