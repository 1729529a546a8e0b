-- ===== src/Gateway/Stream/Rounds.antt =====
-- performStreamingAttempt of stream.go: the loop over the frames that the provider sends.
use alzette.Shared.{
  ℕ, zero, suc, ◌+◌, String, len, ◌==◌, Bool, true, false, ◌||◌, not, none, some, List, [], ◌∷◌,
  ltb, ◌⊎◌, inl, inr, if◌then◌else◌,
}
use Prim.Native.String
use alzette.Gateway.Outcome.{AttemptResult, failure}
use alzette.Gateway.Chunk.{StreamState, consume}
use alzette.Gateway.World.{StoreOps, Env, Config, World}
use alzette.Gateway.Stream.Frame.{
  SseFrame, FrameEnd, complete, ended, unsupported, join, read_frame,
}
use alzette.Gateway.Stream.Sink.{
  Reading, Progress, is_committed, close_stream, fail_stream, cancel_stream, write, encode_chunk,
  encode_end,
}

module _ {S : Type 0} (env : Env) (ops : StoreOps S) (config : Config) where
  module _ (c : Reading) where
    abbrev pub fail : String → Bool → String → ℕ → String → World S → AttemptResult × World S
    fail provider_id retryable class client_status message w =
        fail_stream env ops config c.id c.started provider_id 200 retryable class client_status
          message w

    abbrev pub invalid_stream : String → String → World S → AttemptResult × World S
    invalid_stream provider_id message w =
        fail provider_id false "invalid_upstream_response" 502 message w

    -- readErr != nil
    unfoldable pub read_failed : StreamState → FrameEnd → World S → AttemptResult × World S
    unfolding cancel_stream fail_stream
    read_failed state end w =
        let is_end : Bool = elim end [ ended ↦ not c.body.broken | _ ↦ false ] in
        if c.cancelled
        then cancel_stream env ops config c.id c.started state.provider_id 200 w
        else if c.timed_out
        then fail state.provider_id (not (is_committed w)) "upstream_timeout" 504
            "upstream inference timed out" w
        else if not is_end
        then invalid_stream state.provider_id
            "upstream inference returned an invalid streaming response" w
        else fail state.provider_id (not (is_committed w)) "upstream_transport" 502
            "upstream inference stream ended before completion" w

    -- The write of what is pending, and what follows if it succeeds.
    abbrev pub after_write {ℓ} :
        {A : Type ℓ} → String → String → World S → (AttemptResult × World S → A) → (World S → A) → A
    after_write provider_id text w stop next =
        let (fine, v) = write env text w in
        if fine
        then next v
        else stop (cancel_stream env ops config c.id c.started provider_id 200 v)

    unfoldable pub succeed : StreamState → World S → AttemptResult × World S
    unfolding close_stream
    succeed state w =
        close_stream env ops config c.id c.started "succeeded" "" state.provider_id 200
          (record (failure "" 0 "") {
            success = true;
            model = state.model;
            provider_id = state.provider_id;
            usage = state.usage;
            finality = state.finality;
          })
          w

    -- The event that ends the stream.
    unfoldable pub stream_done : SseFrame → Progress → World S → AttemptResult × World S
    unfolding fail_stream cancel_stream write encode_end succeed
    stream_done f p w =
        if not p.state.saw_choice || not p.state.saw_finish
        then invalid_stream p.state.provider_id
            "upstream inference stream ended without a terminal choice" w
        else (let (text, w1) = encode_end c.encoder f p.state w in
            elim text [
              | none ↦
                  invalid_stream p.state.provider_id
                    "upstream inference stream could not be represented in the requested API" w1
              | some t ↦
                  after_write p.state.provider_id (String.◌++◌ p.pending t) w1 (λ r. r)
                    (λ v. succeed p.state v)
            ])

    -- What a round of the loop does: the attempt ends, or the loop goes on.
    abbrev pub Round : Type 0
    Round = (AttemptResult × World S) ⊎ (Progress × World S)

    unfoldable pub stream_chunk : SseFrame → Progress → World S → Round
    unfolding consume fail_stream cancel_stream write encode_chunk
    stream_chunk f p w =
        let (fine, state) = consume env.decode_chunk (join f.parts) p.state in
        if not fine
        then inl (
            invalid_stream state.provider_id
              "upstream inference returned an invalid streaming response" w)
        else (let (text, w1) = encode_chunk c.encoder f w in
            elim text [
              | none ↦ inl (
                  invalid_stream state.provider_id
                    "upstream inference stream could not be represented in the requested API" w1)
              | some t ↦
                  after_write state.provider_id (String.◌++◌ p.pending t) w1 (λ r. inl r)
                    (λ v. inr (record { state = state; pending = ""; total = p.total }, v))
            ])

    -- A frame that is complete. `pending` keeps a frame without data, for the client to get too.
    unfoldable pub stream_complete : SseFrame → Progress → World S → Round
    unfolding stream_done stream_chunk
    stream_complete f p w = elim f.parts [
      | [] ↦ inr (
        record p {
          pending = elim c.encoder [ none ↦ String.◌++◌ p.pending f.raw | some e ↦ p.pending ];
        },
        w,
      )
      | x ∷ xs ↦ if join f.parts == "[DONE]" then inl (stream_done f p w) else stream_chunk f p w
    ]

    unfoldable pub stream_frame : SseFrame → Progress → World S → Round
    unfolding read_failed stream_complete
    stream_frame f p0 w =
        let p : Progress = record p0 { total = p0.total + len f.raw } in
        if ltb config.max_response_bytes p.total
        then inl (
            fail p.state.provider_id false "upstream_response_too_large" 502
              "upstream inference response exceeded the configured limit" w)
        else elim f.end [
          | complete ↦ stream_complete f p w
          | ended ↦ inl (read_failed p.state ended w)
          | unsupported ↦ inl (read_failed p.state unsupported w)
        ]

    -- The loop over the frames, on fuel: each frame takes a line at least.
    unfoldable pub stream_loop : ℕ → List String → Progress → World S → AttemptResult × World S
    unfolding stream_frame read_frame
    stream_loop zero lines p w = (failure "" 0 "", w)
    stream_loop (suc fuel) lines p w =
        let f = read_frame lines c.body.tail in
        elim (stream_frame f p w) [ inl r ↦ r | inr (q, v) ↦ stream_loop fuel f.rest q v ]
