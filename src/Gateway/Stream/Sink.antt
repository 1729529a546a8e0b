-- ===== src/Gateway/Stream/Sink.antt =====
-- stream.go: what a streaming attempt does step by step. It ends in the ledger with its result, and
-- texts are translated and written to the client.
use alzette.Shared.{
  ℕ, String, ◌==◌, Bool, true, false, Option, none, some, [], ◌∷◌, length, if◌then◌else◌,
}
use alzette.Platform.{Time, no_usage}
use alzette.Gateway.Outcome.{AttemptResult, failure}
use alzette.Gateway.Chunk.{StreamState}
use alzette.Gateway.World.{StoreOps, EventBody, Encoder, Env, Config, World}
use alzette.Gateway.Attempt.{close_attempt}
use alzette.Gateway.Stream.Frame.{SseFrame, join}

-- What stays the same in an attempt whose response has begun.
pub record Reading : Type 0 where
  pub id : String
  pub started : Time
  pub body : EventBody
  pub cancelled : Bool
  pub timed_out : Bool
  pub encoder : Option Encoder

-- What the loop over the frames changes: `total` counts the bytes that were read.
pub record Progress : Type 0 where
  pub state : StreamState
  pub pending : String
  pub total : ℕ

abbrev pub is_committed : {S : Type 0} → World S → Bool
is_committed w = elim w.written [ [] ↦ false | x ∷ xs ↦ true ]

-- sink.write: whether there is no error. The first write of some text commits the stream.
unfoldable pub write : {S : Type 0} → Env → String → World S → Bool × World S
write env text w = if text == "" then (true, w) else (
  env.accepts (length w.written),
  record w { written = record { call = length w.sent; text = text } ∷ w.written },
)

-- The text for the client: the frame itself, or its translation by the encoder.
unfoldable pub encode_chunk :
    {S : Type 0} → Option Encoder → SseFrame → World S → Option String × World S
encode_chunk none f w = (some f.raw, w)
encode_chunk (some e) f w =
    (e.encode w.encoded (join f.parts), record w { encoded = join f.parts ∷ w.encoded })

unfoldable pub encode_end :
    {S : Type 0} → Option Encoder → SseFrame → StreamState → World S → Option String × World S
encode_end none f state w = (some f.raw, w)
encode_end (some e) f state w = (e.finish w.encoded state, w)

module _ {S : Type 0} (env : Env) (ops : StoreOps S) (config : Config) where
  -- finish(…)
  unfoldable pub close_stream :
      String
      → Time
      → String
      → String
      → String
      → ℕ
      → AttemptResult
      → World S
      → AttemptResult × World S
  unfolding close_attempt
  close_stream id started status class provider_id http_status result w =
      close_attempt env ops config id started
        (record {
          status = status;
          class = class;
          provider_id = provider_id;
          http_status = http_status;
          usage = no_usage;
          finality = "";
        })
        result w

  -- A failed attempt whose result has the class, the status and the message.
  unfoldable pub fail_stream :
      String → Time → String → ℕ → Bool → String → ℕ → String → World S → AttemptResult × World S
  unfolding close_stream
  fail_stream id started provider_id http_status retryable class client_status message w =
      close_stream id started "failed" class provider_id http_status
        (record (failure class client_status message) {
          provider_id = provider_id;
          retryable = retryable;
        })
        w

  unfoldable pub cancel_stream : String → Time → String → ℕ → World S → AttemptResult × World S
  unfolding close_stream
  cancel_stream id started provider_id http_status w =
      close_stream id started "cancelled" "client_cancelled" provider_id http_status
        (record (failure "client_cancelled" 499 "request was cancelled") {
          provider_id = provider_id;
        })
        w

  -- finishStreamingTransportError
  unfoldable pub transport_error :
      String → Time → Bool → Bool → String → ℕ → World S → AttemptResult × World S
  unfolding cancel_stream fail_stream
  transport_error id started cancelled timed_out provider_id http_status w =
      if cancelled
      then cancel_stream id started provider_id http_status w
      else if timed_out
      then fail_stream id started provider_id http_status true "upstream_timeout" 504
          "upstream inference timed out" w
      else fail_stream id started provider_id http_status true "upstream_transport" 502
          "upstream inference connection failed" w
