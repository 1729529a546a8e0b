-- ===== src/Gateway/Attempt.antt =====
-- performBifrostAttempt of gateway.go: one attempt is recorded, made and completed.
pub mod Effects
use alzette.Shared.{
  ℕ, ◌+◌, String, ◌==◌, Bool, true, false, not, Option, none, some, List, [], ◌∷◌, ltb, eqb, length,
  if◌then◌else◌,
}
use alzette.Shared.Int.{ℤ, pos}
use alzette.Platform.{
  Time, Result, ok, err, Route, Target, TokenUsage, no_usage, AttemptStart, AttemptFinish,
}
use alzette.Gateway.Metadata.{safe_provider_id, safe_model}
use alzette.Gateway.Outcome.{
  AttemptResult, failure, transient, classify_provider_status, parse_retry_after, elapsed,
}
use alzette.Gateway.Usage.{platform_usage}
use alzette.Gateway.World.{
  StoreOps, ChatResult, ProviderError, Reply, failed, answered, empty, Exchange, Upstream, Env,
  Config, World, read_clock, draw_id, call_store,
}

-- ledgerFailure()
abbrev pub ledger_failure : AttemptResult
ledger_failure = failure "ledger_error" 503 "request attempt result could not be recorded"

unfoldable pub classify_bifrost_error : ProviderError → AttemptResult
unfolding classify_provider_status
classify_bifrost_error e =
    if eqb e.status_code 0
    then transient (failure "upstream_transport" 502 "upstream inference connection failed")
    else classify_provider_status e.status_code

-- The failure of an answered provider, with its identifier and its Retry-After.
unfoldable pub provider_failure : Env → ProviderError → Time → AttemptResult
unfolding classify_bifrost_error parse_retry_after
provider_failure env e now =
    let known = record (classify_bifrost_error e) {
      provider_id = safe_provider_id e.provider_request_id;
    } in
    if e.retry_after == ""
    then known
    else let after = parse_retry_after env.parse_time e.retry_after now in
      record known {
        retry_after = after.delay;
        retry_after_set = after.is_set;
        retry_after_header = after.header;
      }

-- The closing entry of the attempt.
pub record Closing : Type 0 where
  pub status : String
  pub class : String
  pub provider_id : String
  pub http_status : ℕ
  pub usage : TokenUsage
  pub finality : String

module _ {S : Type 0} (env : Env) (ops : StoreOps S) (config : Config) where
  -- finish(…): the attempt is completed, or the result is the ledger's failure.
  unfoldable pub close_attempt :
      String → Time → Closing → AttemptResult → World S → AttemptResult × World S
  unfolding elapsed
  close_attempt id started c result w =
      let (completed, w1) = read_clock env w in
      let (ended, w2) = read_clock env w1 in
      let (r, w3) =
        call_store
          (ops.complete_provider_attempt (record {
            id = id;
            completed_at = completed;
            status = c.status;
            provider_http_status = c.http_status;
            error_class = c.class;
            duration = elapsed started ended;
            provider_request_id = c.provider_id;
            usage = c.usage;
            usage_finality = c.finality;
          }))
          w2 in
      elim r [ ok u ↦ (result, w3) | err e ↦ (ledger_failure, w3) ]

  -- providerErr != nil
  unfoldable pub close_failed :
      String → Time → ProviderError → Exchange → World S → AttemptResult × World S
  unfolding close_attempt provider_failure platform_usage
  close_failed id started e x w =
      let (usage, finality) = platform_usage e.billed_usage "partial" in
      let provider_id = safe_provider_id e.provider_request_id in
      let closing = λ (status class : String).
        let c : Closing = record {
          status = status;
          class = class;
          provider_id = provider_id;
          http_status = e.status_code;
          usage = usage;
          finality = finality;
        } in
        c in
      if x.cancelled
      then close_attempt id started (closing "cancelled" "client_cancelled")
          (record (failure "client_cancelled" 499 "request was cancelled") {
            provider_id = provider_id;
          })
          w
      else if x.timed_out
      then close_attempt id started (closing "failed" "upstream_timeout")
          (record (transient (failure "upstream_timeout" 504 "upstream inference timed out")) {
            provider_id = provider_id;
          })
          w
      else if e.retry_after == ""
      then (let terminal = provider_failure env e 0 in
          close_attempt id started (closing "failed" terminal.class) terminal w)
      else let (now, w1) = read_clock env w in
        let terminal = provider_failure env e now in
        close_attempt id started (closing "failed" terminal.class) terminal w1

  abbrev rejected : String → Closing
  rejected class = record {
    status = "failed";
    class = class;
    provider_id = "";
    http_status = 200;
    usage = no_usage;
    finality = "unknown";
  }

  unfoldable pub close_answered : String → Time → ChatResult → World S → AttemptResult × World S
  unfolding close_attempt platform_usage
  close_answered id started result w =
      let (usage, finality) = platform_usage result.usage "final" in
      let provider_id = safe_provider_id result.provider_request_id in
      if ltb config.max_response_bytes result.size
      then close_attempt id started (rejected "upstream_response_too_large")
          (failure "upstream_response_too_large" 502
            "upstream inference response exceeded the configured limit")
          w
      else close_attempt id started
          (record {
            status = "succeeded";
            class = "";
            provider_id = provider_id;
            http_status = 200;
            usage = usage;
            finality = finality;
          })
          (record (failure "" 0 "") {
            success = true;
            body = result.body;
            model = safe_model result.model;
            provider_id = provider_id;
            usage = usage;
            finality = finality;
          })
          w

  -- The branches on what Chat returned.
  unfoldable pub close_reply : String → Time → Reply → Exchange → World S → AttemptResult × World S
  unfolding close_failed close_answered
  close_reply id started (failed e) x w = close_failed id started e x w
  close_reply id started (answered result) x w = close_answered id started result w
  close_reply id started empty x w =
      close_attempt id started (rejected "invalid_upstream_response")
        (failure "invalid_upstream_response" 502 "upstream inference returned an invalid response")
        w

  -- g.bifrost.Chat(…)
  unfoldable pub send : Upstream → World S → Exchange × World S
  send call w = (env.chat (length w.sent) call, record w { sent = call ∷ w.sent })

  -- The call of the provider and what follows it.
  unfoldable pub exchange : String → Time → Upstream → World S → AttemptResult × World S
  unfolding close_reply send
  exchange id started call w = let (x, w1) = send call w in close_reply id started x.reply x w1

  unfoldable pub perform_attempt :
      String → Route → String → String → ℕ → World S → AttemptResult × World S
  unfolding exchange
  perform_attempt request_id route secret body number w =
      let (drawn, w1) = draw_id env "att" w in
      elim drawn [
        | none ↦ (failure "ledger_error" 500 "request attempt could not be initialised", w1)
        | some id ↦
            let (started, w2) = read_clock env w1 in
            let (r, w3) =
              call_store
                (ops.create_provider_attempt (record {
                  id = id;
                  inference_request_id = request_id;
                  target_id = route.target.id;
                  attempt_number = number;
                  started_at = started;
                }))
                w2 in
            elim r [
              | err e ↦ (failure "ledger_error" 503 "request attempt could not be recorded", w3)
              | ok u ↦
                  exchange id started
                    (record {
                      request_id = request_id;
                      attempt_number = number;
                      target_id = route.target.id;
                      base_url = route.target.base_url;
                      provider_model = route.target.provider_model;
                      secret = secret;
                      body = body;
                    })
                    w3
            ]
      ]
