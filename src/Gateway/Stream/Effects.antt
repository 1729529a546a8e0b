-- ===== src/Gateway/Stream/Effects.antt =====
-- What one streaming attempt does: it calls the provider at most once, and what it writes to the
-- client belongs to that call.
use alzette.Shared.{
  append_nil, ℕ, suc, String, ◌≡◌, ◌∙◌, ◌⊎◌, inl, inr, refl, ◌||◌, Option, [], ◌∷◌, All, length,
  ltb, eqb, arith, if_cases, Option-cases,
}
use alzette.Platform.{Result-cases, Time, Route, AttemptStart}
use alzette.Gateway.Outcome.{AttemptResult}
use alzette.Gateway.World.{
  StoreOps, Refusal, StreamBody, EventBody, unreachable, refusal, not_events, events, StreamReply,
  Upstream, Encoder, Env, Config, World,
}
use alzette.Gateway.Attempt.{Closing, close_attempt}
use alzette.Gateway.Attempt.Effects.{SendsOnce, Quiet, close_attempt-Quiet}
use alzette.Gateway.Finish.{Backend}
use alzette.Gateway.Stream.Attempt.{
  stream_refused, stream_reply, send_stream, stream_started, perform_streaming_attempt,
}
use alzette.Gateway.Stream.Sink.{Reading}
use alzette.Gateway.Stream.Closes.{
  Moves-none, Closes, close_stream-Closes, fail_stream-Closes, transport_error-Closes,
}
use alzette.Gateway.Stream.Endings.{stream_loop-Closes}

module _ {S : Type 0} (env : Env) (ops : StoreOps S) (config : Config) where
  close_attempt-written :
      (id : String) (t : Time) (c : Closing) (r : AttemptResult) (w : World S)
      → (close_attempt env ops config id t c r w).1.written ≡ w.written
  unfolding close_attempt
  close_attempt-written id t c r w = ground arith

  -- What the client was sent belongs to the call that was made last.
  abbrev pub OfLast : World S → Type 0
  OfLast w = All (λ c. c.call ≡ length w.sent) w.written

  Closes-Quiet :
      (id : String) (t : Time) (w : World S) (x : AttemptResult × World S)
      → Closes env ops config id t w x
      → Quiet env ops config w x
  Closes-Quiet id t w x c =
      let calm = close_attempt-Quiet env ops config id t c.closing c.result c.before in
      rw (c.closed) (calm.0 ∙ c.moved.sent, calm.1 ∙ c.moved.pauses)

  Closes-OfLast :
      (id : String) (t : Time) (w : World S) (x : AttemptResult × World S)
      → Closes env ops config id t w x
      → w.written ≡ []
      → OfLast x.1
  Closes-OfLast id t w x c e =
      let sent = (Closes-Quiet id t w x c).0 in
      let texts : x.1.written ≡ c.moved.texts =
        rw (c.closed, close_attempt-written id t c.closing c.result c.before, c.moved.written, e)
          (append_nil c.moved.texts) in
      rw (texts, sent) c.moved.own

module _ {S : Type 0} (env : Env) (ops : StoreOps S) (config : Config) (backend : Backend) where
  stream_refused-Closes :
      (id : String) (t : Time) (reply : StreamReply) (g : String) (r : Refusal) (w : World S)
      → Closes env ops config id t w (stream_refused env ops config backend id t reply g r w)
  unfolding stream_refused
  stream_refused-Closes id t reply g r w =
      let P = Closes env ops config id t w in
      let m = Moves-none w in
      elim (Option-cases r.size) [
        | inl n ↦ rw (n) (transport_error-Closes env ops config id t _ _ _ _ w w m)
        | inr (k, y) ↦ rw (y) (
            if_cases P (ltb config.max_response_bytes k) _ _
              (fail_stream-Closes env ops config id t _ _ _ _ _ _ w w m)
              (if_cases P (eqb r.status_code 429 || eqb r.status_code 503) _ _
                (close_stream-Closes env ops config id t _ _ _ _ _ w _ (record {
                  store = refl;
                  sent = refl;
                  pauses = refl;
                  draws = refl;
                  texts = [];
                  written = refl;
                  own = tt;
                }))
                (close_stream-Closes env ops config id t _ _ _ _ _ w w m)))
      ]

  -- Whatever the provider's response to a streaming call is, its handling ends with the one call
  -- that closes the attempt's entry in the ledger, and gives what that call gives (which is a failure
  -- of the ledger if the store refuses). Before that neither the store, the calls of the provider,
  -- the pauses nor the drawn identifiers have changed: only the client's stream, the encoder and the
  -- clock may have, and each text written belongs to the provider's last call.
  pub stream_reply-Closes :
      (id : String) (t : Time) (reply : StreamReply) (e : Option Encoder) (w : World S)
      → Closes env ops config id t w (stream_reply env ops config backend id t reply e w)
  unfolding stream_reply
  stream_reply-Closes id t reply e w = split reply.body
    where
      reading : EventBody → Reading
      reading body = record {
        id = id;
        started = t;
        body = body;
        cancelled = reply.cancelled;
        timed_out = reply.timed_out;
        encoder = e;
      }

      split :
          (b : StreamBody)
          → Closes env ops config id t w
              (stream_reply env ops config backend id t (record reply { body = b }) e w)
      split unreachable = transport_error-Closes env ops config id t _ _ _ _ w w (Moves-none w)
      split (refusal g r) = stream_refused-Closes id t (record reply { body = refusal g r }) _ r w
      split (not_events g) = fail_stream-Closes env ops config id t _ _ _ _ _ _ w w (Moves-none w)
      split (events g body) =
          stream_loop-Closes env ops config (reading body) (suc (length body.lines)) body.lines _ w
            w (omega arith) (Moves-none w)

  -- The provider is called once, or the target's address is refused.
  pub stream_started-Closes :
      (id : String) (t : Time) (call : Upstream) (e : Option Encoder) (w : World S)
      → let x = stream_started env ops config backend id t call e w in
        Closes env ops config id t w x
        ⊎ Closes env ops config id t (record w { sent = call ∷ w.sent }) x
  unfolding stream_started send_stream
  stream_started-Closes id t call e w =
      elim (Option-cases (backend.target_endpoint call.base_url config.allow_insecure_targets)) [
        | inl n ↦
            rw (n, stream_started)
              (inl (fail_stream-Closes env ops config id t _ _ _ _ _ _ w w (Moves-none w)))
        | inr (url, y) ↦ rw (y, stream_started) (inr (stream_reply-Closes id t _ e _))
      ]

  stream_started-SendsOnce :
      (id : String) (t : Time) (call : Upstream) (e : Option Encoder) (w : World S)
      → let x = stream_started env ops config backend id t call e w in
        (x.1.pauses ≡ w.pauses) × ((x.1.sent ≡ w.sent) ⊎ (x.1.sent ≡ call ∷ w.sent))
  stream_started-SendsOnce id t call e w = elim (stream_started-Closes id t call e w) [
    | inl c ↦ let (a, b) = Closes-Quiet env ops config id t w _ c in (b, inl a)
    | inr c ↦ let (a, b) = Closes-Quiet env ops config id t _ _ c in (b, inr a)
  ]

  stream_started-OfLast :
      (id : String) (t : Time) (call : Upstream) (e : Option Encoder) (w : World S)
      → w.written ≡ []
      → OfLast env ops config (stream_started env ops config backend id t call e w).1
  stream_started-OfLast id t call e w h = elim (stream_started-Closes id t call e w) [
    | inl c ↦ Closes-OfLast env ops config id t w _ c h
    | inr c ↦ Closes-OfLast env ops config id t _ _ c h
  ]

  -- One streaming attempt makes no pause and calls the provider at most once, under its own attempt
  -- number, for its own request and target.
  pub perform_streaming_attempt-SendsOnce :
      (id : String) (route : Route) (secret body : String) (n : ℕ) (e : Option Encoder)
      (w : World S)
      → SendsOnce env ops config id route n w
          (perform_streaming_attempt env ops config backend id route secret body n e w)
  unfolding perform_streaming_attempt
  perform_streaming_attempt-SendsOnce id route secret body n e w =
      elim (Option-cases (env.new_id w.draws "att")) [
        | inl m ↦ rw (m, perform_streaming_attempt) (refl, inl refl)
        | inr (a, y) ↦ elim (Result-cases (ops.create_provider_attempt (start a) w.store).0) [
          | inr (u, r) ↦ rw (y, r, perform_streaming_attempt) (refl, inl refl)
          | inl (u, r) ↦
              rw (y, r, perform_streaming_attempt)
                (let (calm, sent) = stream_started-SendsOnce a (env.now w.ticks) call e _ in
                  (calm, elim sent [ inl s ↦ inl s | inr s ↦ inr (call, s, refl, refl, refl) ]))
        ]
      ]
    where
      start : String → AttemptStart
      start a = record {
        id = a;
        inference_request_id = id;
        target_id = route.target.id;
        attempt_number = n;
        started_at = env.now w.ticks;
      }

      call : Upstream
      call = record {
        request_id = id;
        attempt_number = n;
        target_id = route.target.id;
        base_url = route.target.base_url;
        provider_model = route.target.provider_model;
        secret = secret;
        body = body;
      }

  -- After an attempt for a client that was sent nothing before, what the client was sent belongs to
  -- the call of the provider that was made last.
  pub perform_streaming_attempt-OfLast :
      (id : String) (route : Route) (secret body : String) (n : ℕ) (e : Option Encoder)
      (w : World S)
      → w.written ≡ []
      → OfLast env ops config
          (perform_streaming_attempt env ops config backend id route secret body n e w).1
  unfolding perform_streaming_attempt
  perform_streaming_attempt-OfLast id route secret body n e w h =
      elim (Option-cases (env.new_id w.draws "att")) [
        | inl m ↦ rw (m, perform_streaming_attempt, h) tt
        | inr (a, y) ↦ elim (Result-cases (ops.create_provider_attempt (start a) w.store).0) [
          | inr (u, r) ↦ rw (y, r, perform_streaming_attempt, h) tt
          | inl (u, r) ↦
              rw (y, r, perform_streaming_attempt)
                (stream_started-OfLast a (env.now w.ticks) _ e _ h)
        ]
      ]
    where
      start : String → AttemptStart
      start a = record {
        id = a;
        inference_request_id = id;
        target_id = route.target.id;
        attempt_number = n;
        started_at = env.now w.ticks;
      }
