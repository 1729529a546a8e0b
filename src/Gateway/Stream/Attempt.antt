-- ===== src/Gateway/Stream/Attempt.antt =====
-- performStreamingAttempt of stream.go. A request that http.NewRequest refuses is not told apart from
-- a target whose address is not valid.
use alzette.Shared.{
  ℕ, suc, String, false, ◌||◌, Option, none, some, ◌∷◌, ltb, eqb, length, if◌then◌else◌,
}
use alzette.Platform.{Time, ok, err, Route}
use alzette.Gateway.Metadata.{safe_provider_id}
use alzette.Gateway.Outcome.{AttemptResult, failure, classify_provider_status, parse_retry_after}
use alzette.Gateway.Chunk.{start_state}
use alzette.Gateway.World.{
  StoreOps, Refusal, unreachable, refusal, not_events, events, StreamReply, Upstream, Encoder, Env,
  Config, World, read_clock, draw_id, call_store,
}
use alzette.Gateway.Finish.{Backend}
use alzette.Gateway.Stream.Sink.{close_stream, fail_stream, transport_error}
use alzette.Gateway.Stream.Rounds.{stream_loop}

module _ {S : Type 0} (env : Env) (ops : StoreOps S) (config : Config) (backend : Backend) where
  -- response.StatusCode != http.StatusOK
  unfoldable pub stream_refused :
      String → Time → StreamReply → String → Refusal → World S → AttemptResult × World S
  unfolding transport_error fail_stream close_stream classify_provider_status parse_retry_after
  stream_refused id started reply provider_id r w = elim r.size [
    | none ↦
        transport_error env ops config id started reply.cancelled reply.timed_out provider_id
          r.status_code w
    | some n ↦
        if ltb config.max_response_bytes n
        then fail_stream env ops config id started provider_id r.status_code false
            "upstream_response_too_large" 502
            "upstream inference response exceeded the configured limit" w
        else (let result = record (classify_provider_status r.status_code) {
          provider_id = provider_id;
        } in
            if eqb r.status_code 429 || eqb r.status_code 503
            then (let (now, w1) = read_clock env w in
                let after = parse_retry_after env.parse_time r.retry_after now in
                close_stream env ops config id started "failed" result.class provider_id
                  r.status_code
                  (record result {
                    retry_after = after.delay;
                    retry_after_set = after.is_set;
                    retry_after_header = after.header;
                  })
                  w1)
            else close_stream env ops config id started "failed" result.class provider_id
                r.status_code result w)
  ]

  -- The branches on what the call meets.
  unfoldable pub stream_reply :
      String → Time → StreamReply → Option Encoder → World S → AttemptResult × World S
  unfolding transport_error stream_refused fail_stream stream_loop
  stream_reply id started reply encoder w = elim reply.body [
    | unreachable ↦ transport_error env ops config id started reply.cancelled reply.timed_out "" 0 w
    | refusal generation r ↦ stream_refused id started reply (safe_provider_id generation) r w
    | not_events generation ↦
        fail_stream env ops config id started (safe_provider_id generation) 200 false
          "invalid_upstream_response" 502
          "upstream inference returned an invalid streaming response" w
    | events generation body ↦
        stream_loop env ops config
          (record {
            id = id;
            started = started;
            body = body;
            cancelled = reply.cancelled;
            timed_out = reply.timed_out;
            encoder = encoder;
          })
          (suc (length body.lines)) body.lines
          (record { state = start_state (safe_provider_id generation); pending = ""; total = 0 }) w
  ]

  -- g.client.Do(request)
  unfoldable pub send_stream : Upstream → World S → StreamReply × World S
  send_stream call w = (env.stream (length w.sent) call, record w { sent = call ∷ w.sent })

  -- From the entry in the ledger on: the target's address, the call and what follows it.
  unfoldable pub stream_started :
      String → Time → Upstream → Option Encoder → World S → AttemptResult × World S
  unfolding fail_stream stream_reply send_stream
  stream_started id started call encoder w =
      elim (backend.target_endpoint call.base_url config.allow_insecure_targets) [
        | none ↦
            fail_stream env ops config id started "" 0 false "target_configuration" 502
              "configured inference target is invalid" w
        | some url ↦
            let (reply, w1) = send_stream call w in stream_reply id started reply encoder w1
      ]

  -- performStreamingAttempt
  unfoldable pub perform_streaming_attempt :
      String → Route → String → String → ℕ → Option Encoder → World S → AttemptResult × World S
  unfolding stream_started
  perform_streaming_attempt request_id route secret body number encoder w =
      let (drawn, w1) = draw_id env "att" w in
      elim drawn [
        | none ↦ (failure "ledger_error" 500 "request attempt could not be initialised", w1)
        | some id ↦
            let (started, w2) = read_clock env w1 in
            let (r, w3) =
              call_store
                (ops.create_provider_attempt (record {
                  id = id;
                  inference_request_id = request_id;
                  target_id = route.target.id;
                  attempt_number = number;
                  started_at = started;
                }))
                w2 in
            elim r [
              | err e ↦ (failure "ledger_error" 503 "request attempt could not be recorded", w3)
              | ok u ↦
                  stream_started id started
                    (record {
                      request_id = request_id;
                      attempt_number = number;
                      target_id = route.target.id;
                      base_url = route.target.base_url;
                      provider_model = route.target.provider_model;
                      secret = secret;
                      body = body;
                    })
                    encoder w3
            ]
      ]
