-- ===== src/Gateway/Stream/Agreement.antt =====
-- The answer to a request that asks for a stream, and its entry in the ledger.
use alzette.Shared.{
  String, ◌==◌, ◌≡◌, ◌∙◌, ◌⊎◌, inl, inr, refl, Bool, true, false, [], ◌∷◌, ap, if◌then◌else◌,
  Bool-cases, if_cases, not,
}
use alzette.Platform.{Route}
use alzette.Gateway.Outcome.{AttemptResult, failure_health_status}
use alzette.Gateway.World.{StoreOps, Env, Config, World}
use alzette.Gateway.Reply.{Response, write_error, Opened, Ending}
use alzette.Gateway.Finish.{Backend, finish, report_health, conclude_target, serve_failure}
use alzette.Gateway.Finish.Agreement.{
  LedgerLaws, Agrees, conclude-Agrees, conclude_target-Agrees, serve_failure-Agrees,
}
use alzette.Gateway.Stream.Sink.{is_committed}
use alzette.Gateway.Stream.Serve.{
  streamed_page, stream_result, stream_ended, stream_run, stream_unavailable, new_stream,
  serve_streaming,
}

module _ {S : Type 0} (env : Env) (ops : StoreOps S) (config : Config) (backend : Backend) where
  report_health-written :
      (route : Route) (status : String) (b : Bool) (w : World S)
      → (report_health env ops config backend route status b w).written ≡ w.written
  unfolding report_health
  report_health-written route status b w = refl

  conclude_target-written :
      (o : Opened) (e : Ending) (r : Response) (route : Route) (health : String) (b : Bool)
      (w : World S)
      → (conclude_target env ops config backend o e r route health b w).1.written ≡ w.written
  unfolding conclude_target finish report_health
  conclude_target-written o e r route health b w =
      let P : Response × World S → Type 0 = λ x. x.1.written ≡ w.written in
      let Q : World S → Type 0 = λ v. v.written ≡ w.written in
      if_cases P (finish env ops config backend o e w).0 _ _
        (if_cases Q (health == "") _ _ refl refl) refl

  is_committed-same : (w v : World S) → v.written ≡ w.written → is_committed v ≡ is_committed w
  is_committed-same w v e = ap (λ xs. elim xs as (λ _. Bool) [ [] ↦ false | x ∷ ys ↦ true ]) e

  -- The client was sent a part of the stream at least.
  abbrev pub Streamed : Response × World S → Type 0
  Streamed x = (is_committed x.1 ≡ true) × (x.0.status ≡ 200) × (x.0.body ≡ "")

  module _ (laws : LedgerLaws ops) where
    stream_result-Agrees :
        (o : Opened) (route : Route) (t : AttemptResult) (w : World S)
        → Agrees env ops config backend laws o.request_id
            (stream_result env ops config backend o route t w)
          × ((stream_result env ops config backend o route t w).1.written ≡ w.written)
    unfolding stream_result serve_failure
    stream_result-Agrees o route t w = elim (Bool-cases t.success) [
      | inl y ↦
          rw (y, stream_result)
            (
              conclude_target-Agrees env ops config backend laws o _ _ route "operational" true w
                  refl (inl refl),
              conclude_target-written o _ _ route "operational" true w,
            )
      | inr n ↦
          rw (n, stream_result)
            (
              serve_failure-Agrees env ops config backend laws o route t w,
              conclude_target-written o _ _ route (failure_health_status t.class) false w,
            )
    ]

    stream_ended-answer :
        (o : Opened) (route : Route) (t : AttemptResult) (w : World S)
        → let x = stream_ended env ops config backend o route t w in
          Agrees env ops config backend laws o.request_id x ⊎ Streamed x
    unfolding stream_ended
    stream_ended-answer o route t w =
        let (agrees, same) = stream_result-Agrees o route t w in
        answered (is_committed w) refl agrees same
      where
        answered :
            (b : Bool)
            → is_committed w ≡ b
            → let (r, v) = stream_result env ops config backend o route t w in
              Agrees env ops config backend laws o.request_id (r, v)
              → v.written ≡ w.written
              → let x : Response × World S = (if b then streamed_page o.request_id else r, v) in
                Agrees env ops config backend laws o.request_id x ⊎ Streamed x
        answered true e agrees same = inr (
          is_committed-same w (stream_result env ops config backend o route t w).1 same ∙ e,
          refl,
          refl,
        )
        answered false e agrees same = inl agrees

    -- For a store that keeps the outcome of a completed request, a request that asks for a stream ends
    -- in one of two ways. Something was written to the client's stream, and nothing is answered beside
    -- it. Or the client is told by 503 that the ledger failed, or the ledger has the status of the
    -- answer.
    pub serve_streaming-answer :
        (o : Opened) (route : Route) (secret body : String) (w : World S)
        → let x = serve_streaming env ops config backend o route secret body w in
          Agrees env ops config backend laws o.request_id x ⊎ Streamed x
    unfolding serve_streaming stream_unavailable write_error
    serve_streaming-answer o route secret body w =
        let v = new_stream env ops config backend w in
        let x = stream_run env ops config backend o route secret body v in
        if_cases (λ y. Agrees env ops config backend laws o.request_id y ⊎ Streamed y)
          (not backend.flushes) (stream_unavailable env ops config backend o v)
          (stream_ended env ops config backend o route x.0 x.1)
          (inl (conclude-Agrees env ops config backend laws o _ _ v refl (inr refl)))
          (stream_ended-answer o route x.0 x.1)
