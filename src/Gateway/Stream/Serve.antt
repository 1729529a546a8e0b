-- ===== src/Gateway/Stream/Serve.antt =====
-- serveStreaming of stream.go: the loop over the attempts, and the completion of the request in the
-- ledger. Where something was written to the client's stream, nothing else is answered.
use alzette.Shared.{ℕ, zero, suc, String, true, ◌||◌, not, Option, [], eqb, if◌then◌else◌}
use alzette.Platform.{Route}
use alzette.Gateway.Outcome.{AttemptResult, failure}
use alzette.Gateway.World.{StoreOps, Env, Config, Encoder, World, read_clock}
use alzette.Gateway.Reply.{Response, write_error, Opened, ending, not_found_page}
use alzette.Gateway.Finish.{Backend, conclude, conclude_target, serve_failure, retry_delay, wait}
use alzette.Gateway.Stream.Sink.{is_committed}
use alzette.Gateway.Stream.Attempt.{perform_streaming_attempt}

-- What is left to answer where the stream is the answer: nothing but its status.
abbrev pub streamed_page : String → Response
streamed_page id = record not_found_page { status = 200; message = ""; request_id = id }

module _ {S : Type 0} (env : Env) (ops : StoreOps S) (config : Config) (backend : Backend) where
  -- The loop over the attempts: `rounds` are left, and number `n` is next.
  unfoldable pub stream_attempts :
      Opened
      → Route
      → String
      → String
      → Option Encoder
      → ℕ
      → ℕ
      → AttemptResult
      → World S
      → AttemptResult × World S
  unfolding perform_streaming_attempt retry_delay wait
  stream_attempts o route secret body encoder zero n terminal w = (terminal, w)
  stream_attempts o route secret body encoder (suc rounds) n _ w =
      let (terminal, w1) =
        perform_streaming_attempt env ops config backend o.request_id route secret body n encoder
          w in
      let (left, w2) =
        wait env ops config backend (retry_delay env ops config backend terminal n) w1 in
      let rest = stream_attempts o route secret body encoder rounds (suc n) terminal w2 in
      if terminal.success || (is_committed w1 || (not terminal.retryable || eqb rounds 0))
      then (terminal, w1)
      else if left
      then (failure "client_cancelled" 499 "request was cancelled", w2)
      else rest

  unfoldable pub stream_result : Opened → Route → AttemptResult → World S → Response × World S
  unfolding conclude_target serve_failure
  stream_result o route terminal w =
      if terminal.success
      then conclude_target env ops config backend o
          (record (ending "succeeded" 200 "") {
            model = terminal.model;
            provider_id = terminal.provider_id;
            finality = terminal.finality;
            usage = terminal.usage;
          })
          (streamed_page o.request_id) route "operational" true w
      else serve_failure env ops config backend o route terminal w

  -- The request is completed, and answered if nothing was written to the stream.
  unfoldable pub stream_ended : Opened → Route → AttemptResult → World S → Response × World S
  unfolding stream_result
  stream_ended o route terminal w =
      let (response, v) = stream_result o route terminal w in
      (if is_committed w then streamed_page o.request_id else response, v)

  -- The attempts, with a new encoder.
  unfoldable pub stream_run : Opened → Route → String → String → World S → AttemptResult × World S
  unfolding stream_attempts
  stream_run o route secret body w =
      let (now, w1) = read_clock env w in
      let encoder = o.parsed.stream_encoder o.protocol o.request_id o.parsed.model now in
      stream_attempts o route secret body encoder route.target.max_attempts 1 (failure "" 0 "") w1

  unfoldable pub stream_unavailable : Opened → World S → Response × World S
  unfolding conclude write_error
  stream_unavailable o w =
      conclude env ops config backend o (ending "failed" 500 "streaming_unavailable")
        (write_error o.protocol 500 "streaming_unavailable" "api_error"
          "response streaming is unavailable" o.request_id)
        w

  -- The client's stream and the encoder are new.
  abbrev pub new_stream : World S → World S
  new_stream w = record w { written = []; encoded = [] }

  unfoldable pub serve_streaming : Opened → Route → String → String → World S → Response × World S
  unfolding stream_unavailable stream_run stream_ended
  serve_streaming o route secret body w =
      let (terminal, v) = stream_run o route secret body (new_stream w) in
      if not backend.flushes
      then stream_unavailable o (new_stream w)
      else stream_ended o route terminal v
