-- ===== src/Gateway/Finish.antt =====
-- The parts of ServeHTTP of gateway.go that follow the choice of a target: the loop over the
-- attempts, its pauses, and the completion of the request in the ledger.
pub mod Overflow
pub mod Rounds
pub mod Attempts
pub mod Agreement
pub mod Keeps
use alzette.Shared.{
  ℕ, zero, suc, ◌+◌, ◌-◌, ◌*◌, ◌^◌, String, ◌==◌, Bool, true, false, ◌&&◌, ◌||◌, not, Option, none,
  some, List, [], ◌∷◌, eqb, leb, length, ◌⊎◌, inl, inr, if◌then◌else◌,
}
use alzette.Shared.Int.{ℤ, pos, negsuc, at_most, wrap64}
use alzette.Platform.{
  Time, Duration, Result, ok, err, Error, unauthenticated, Principal, Route, Target, TokenUsage,
  no_usage, RequestStart, RequestFinish, has_scope, scope_inference_write,
}
use alzette.Gateway.Outcome.{AttemptResult, failure, failure_health_status, elapsed}
use alzette.Gateway.World.{StoreOps, Env, Config, World, read_clock, draw_id, call_store}
use alzette.Gateway.Attempt.{perform_attempt}
use alzette.Gateway.Reply.{
  Protocol, Response, write_error, Parsed, RequestError, Opened, Ending, ending, not_found_page,
  ledger_unavailable,
}

-- What the gateway is configured with beside the store: the target's check and its secret, and the
-- encoding of a provider's body for the client; `flushes` says whether the response can be streamed.
pub record Backend : Type 0 where
  pub target_endpoint : String → Bool → Option String
  pub secret_lookup : String → Option String
  pub encode_response : Protocol → String → String → String → Time → Option String
  pub flushes : Bool

module _ {S : Type 0} (env : Env) (ops : StoreOps S) (config : Config) (backend : Backend) where
  -- finish(…)
  unfoldable pub finish : Opened → Ending → World S → Bool × World S
  unfolding elapsed
  finish o e w =
      let (completed, w1) = read_clock env w in
      let (ended, w2) = read_clock env w1 in
      let (r, w3) =
        call_store
          (ops.complete_inference_request (record {
            id = o.request_id;
            completed_at = completed;
            status = e.status;
            http_status = e.http_status;
            error_class = e.class;
            executed_model = e.model;
            provider_request_id = e.provider_id;
            duration = elapsed o.started_at ended;
            usage = e.usage;
            usage_finality = e.finality;
          }))
          w2 in
      (elim r [ ok u ↦ true | err x ↦ false ], w3)

  -- The result of UpdateTargetHealth is dropped.
  unfoldable pub report_health : Route → String → Bool → World S → World S
  report_health route status successful w =
      let (now, w1) = read_clock env w in
      (call_store (ops.update_target_health route.target.id status now successful) w1).1

  -- The request is completed and answered; it is answered by 503 if that fails.
  unfoldable pub conclude : Opened → Ending → Response → World S → Response × World S
  unfolding finish ledger_unavailable
  conclude o e response w =
      let (recorded, w1) = finish o e w in
      if recorded then (response, w1) else (ledger_unavailable o, w1)

  -- The same, and the target's health is reported if the request was completed.
  unfoldable pub conclude_target :
      Opened → Ending → Response → Route → String → Bool → World S → Response × World S
  unfolding finish ledger_unavailable report_health
  conclude_target o e response route health successful w =
      let (recorded, w1) = finish o e w in
      if recorded
      then (response, if health == "" then w1 else report_health route health successful w1)
      else (ledger_unavailable o, w1)

  -- The end of a request whose attempts did not succeed.
  unfoldable pub serve_failure : Opened → Route → AttemptResult → World S → Response × World S
  unfolding conclude_target failure_health_status write_error
  serve_failure o route terminal w =
      let status = if terminal.class == "client_cancelled" then "cancelled" else "failed" in
      let client_status = if eqb terminal.client_status 0 then 502 else terminal.client_status in
      let message =
        if terminal.message == "" then "upstream inference failed" else terminal.message in
      conclude_target o
        (record (ending status client_status terminal.class) { provider_id = terminal.provider_id })
        (record (write_error o.protocol client_status terminal.class "upstream_error" message
          o.request_id) { retry_after = terminal.retry_after_header })
        route (failure_health_status terminal.class) false w

  unfoldable pub serve_success : Opened → Route → AttemptResult → World S → Response × World S
  unfolding conclude conclude_target write_error
  serve_success o route terminal w =
      let (now, w1) = read_clock env w in
      elim (backend.encode_response o.protocol terminal.body o.request_id o.parsed.model now) [
        | none ↦
            conclude o
              (record (ending "failed" 502 "invalid_upstream_response") {
                provider_id = terminal.provider_id;
              })
              (write_error o.protocol 502 "invalid_upstream_response" "upstream_error"
                "upstream inference could not be represented in the requested API" o.request_id)
              w1
        | some body ↦
            conclude_target o
              (record (ending "succeeded" 200 "") {
                model = terminal.model;
                provider_id = terminal.provider_id;
                finality = terminal.finality;
                usage = terminal.usage;
              })
              (record not_found_page {
                status = 200;
                message = "";
                request_id = o.request_id;
                body = body;
              })
              route "operational" true w1
      ]

  -- The pause before the next attempt: Retry-After or 2^(n-1) times the base, at most the maximum.
  unfoldable pub retry_delay : AttemptResult → ℕ → ℤ
  retry_delay terminal n =
      let delay =
        if terminal.retry_after_set
        then terminal.retry_after
        else wrap64 (config.retry_base_delay * 2 ^ (n - 1)) in
      if at_most delay config.max_retry_delay then delay else pos config.max_retry_delay

  -- wait(ctx, delay): true if the client went away. No pause is made for a delay up to zero.
  unfoldable pub wait : ℤ → World S → Bool × World S
  wait delay w =
      if at_most delay 0
      then (false, w)
      else (env.leaves (length w.pauses), record w { pauses = delay ∷ w.pauses })

  -- The loop over the attempts: `rounds` are left, and number `n` is next. Where no round is left
  -- the last result is terminal.
  unfoldable pub attempt_loop :
      Opened → Route → String → String → ℕ → ℕ → AttemptResult → World S → AttemptResult × World S
  unfolding retry_delay wait
  attempt_loop o route secret body zero n terminal w = (terminal, w)
  attempt_loop o route secret body (suc rounds) n _ w =
      let (terminal, w1) = perform_attempt env ops config o.request_id route secret body n w in
      let (left, w2) = wait (retry_delay terminal n) w1 in
      let rest = attempt_loop o route secret body rounds (suc n) terminal w2 in
      if terminal.success || (not terminal.retryable || eqb rounds 0)
      then (terminal, w1)
      else if left
      then (failure "client_cancelled" 499 "request was cancelled", w2)
      else rest

  unfoldable pub serve_attempts : Opened → Route → String → String → World S → Response × World S
  unfolding attempt_loop serve_success serve_failure
  serve_attempts o route secret body w =
      let (terminal, w1) =
        attempt_loop o route secret body route.target.max_attempts 1 (failure "" 0 "") w in
      if terminal.success
      then serve_success o route terminal w1
      else serve_failure o route terminal w1
