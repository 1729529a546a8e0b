-- ===== src/Gateway/Stream/Keeps.antt =====
-- What every operation of the store keeps, a request that asks for a stream keeps.
use alzette.Shared.{
  ℕ, zero, suc, String, inl, inr, true, false, ◌||◌, if_cases, Option-cases, not, eqb, Option,
}
use alzette.Platform.{Result-cases, Time, Route, AttemptStart}
use alzette.Gateway.Outcome.{AttemptResult, failure, failure_health_status}
use alzette.Gateway.World.{StoreOps, Env, Config, World, Encoder}
use alzette.Gateway.Reply.{Opened}
use alzette.Gateway.Finish.{Backend, retry_delay, wait, serve_failure}
use alzette.Gateway.Finish.Keeps.{
  Keeps, Kept, close_attempt-Kept, wait-Kept, conclude-Kept, conclude_target-Kept,
}
use alzette.Gateway.Stream.Sink.{is_committed}
use alzette.Gateway.Stream.Attempt.{perform_streaming_attempt}
use alzette.Gateway.Stream.Closes.{Closes}
use alzette.Gateway.Stream.Effects.{stream_started-Closes}
use alzette.Gateway.Stream.Serve.{
  stream_attempts, stream_result, stream_ended, stream_run, stream_unavailable, new_stream,
  serve_streaming,
}

module _ {S : Type 0} (env : Env) (ops : StoreOps S) (config : Config) (backend : Backend)
    (P : S → Type 0) (keeps : Keeps ops P) where
  Closes-Kept :
      (id : String) (t : Time) (w : World S) (x : AttemptResult × World S)
      → P w.store
      → Closes env ops config id t w x
      → P x.1.store
  Closes-Kept id t w x h c = rw (c.closed) (
      close_attempt-Kept env ops config backend P keeps id t c.closing c.result c.before
        (rw (c.moved.store) h))

  perform_streaming_attempt-Kept :
      (id : String) (route : Route) (secret body : String) (n : ℕ) (e : Option Encoder)
      (w : World S)
      → P w.store
      → P (perform_streaming_attempt env ops config backend id route secret body n e w).1.store
  unfolding perform_streaming_attempt
  perform_streaming_attempt-Kept id route secret body n e w h =
      elim (Option-cases (env.new_id w.draws "att")) [
        | inl m ↦ rw (m, perform_streaming_attempt) h
        | inr (a, y) ↦
            let start : AttemptStart = record {
              id = a;
              inference_request_id = id;
              target_id = route.target.id;
              attempt_number = n;
              started_at = env.now w.ticks;
            } in
            let kept = keeps.create_attempt start w.store h in
            elim (Result-cases (ops.create_provider_attempt start w.store).0) [
              | inr (u, r) ↦ rw (y, r, perform_streaming_attempt) kept
              | inl (u, r) ↦
                  rw (y, r, perform_streaming_attempt)
                    (elim (stream_started-Closes env ops config backend a (env.now w.ticks) _ e _) [
                      | inl c ↦ Closes-Kept a _ _ _ kept c
                      | inr c ↦ Closes-Kept a _ _ _ kept c
                    ])
            ]
      ]

  stream_attempts-Kept :
      (o : Opened) (route : Route) (secret body : String) (e : Option Encoder) (rounds n : ℕ)
      (t : AttemptResult) (w : World S)
      → P w.store
      → P (stream_attempts env ops config backend o route secret body e rounds n t w).1.store
  unfolding stream_attempts
  stream_attempts-Kept o route secret body e zero n t w h = h
  stream_attempts-Kept o route secret body e (suc k) n t w h =
      let Q : AttemptResult × World S → Type 0 = λ x. P x.1.store in
      let x =
        perform_streaming_attempt env ops config backend o.request_id route secret body n e w in
      let kept = perform_streaming_attempt-Kept o.request_id route secret body n e w h in
      let z = retry_delay env ops config backend x.0 n in
      let y = wait env ops config backend z x.1 in
      let waited = wait-Kept env ops config backend P keeps z x.1 kept in
      if_cases Q (x.0.success || (is_committed x.1 || (not x.0.retryable || eqb k 0))) _ _ kept (
        if_cases Q y.0 _ _ waited
          (stream_attempts-Kept o route secret body e k (suc n) x.0 y.1 waited))

  stream_ended-Kept :
      (o : Opened) (route : Route) (t : AttemptResult) (w : World S)
      → P w.store
      → P (stream_ended env ops config backend o route t w).1.store
  unfolding stream_ended stream_result serve_failure
  stream_ended-Kept o route t w h =
      if_cases (Kept env ops config backend P keeps) t.success _ _
        (conclude_target-Kept env ops config backend P keeps o _ _ route "operational" true w h)
        (conclude_target-Kept env ops config backend P keeps o _ _ route
          (failure_health_status t.class) false w h)

  stream_run-Kept :
      (o : Opened) (route : Route) (secret body : String) (w : World S)
      → P w.store
      → P (stream_run env ops config backend o route secret body w).1.store
  unfolding stream_run
  stream_run-Kept o route secret body w h =
      stream_attempts-Kept o route secret body _ route.target.max_attempts 1 (failure "" 0 "")
        (record w { ticks = suc w.ticks }) h

  -- A property of the store that each of its operations keeps is kept by a request that asks for a
  -- stream, whatever the provider sends and whenever the client goes away.
  pub serve_streaming-Kept :
      (o : Opened) (route : Route) (secret body : String) (w : World S)
      → P w.store
      → P (serve_streaming env ops config backend o route secret body w).1.store
  unfolding serve_streaming stream_unavailable
  serve_streaming-Kept o route secret body w h =
      let v = new_stream env ops config backend w in
      let x = stream_run env ops config backend o route secret body v in
      if_cases (Kept env ops config backend P keeps) (not backend.flushes)
        (stream_unavailable env ops config backend o v)
        (stream_ended env ops config backend o route x.0 x.1)
        (conclude-Kept env ops config backend P keeps o _ _ v h)
        (stream_ended-Kept o route x.0 x.1 (stream_run-Kept o route secret body v h))
