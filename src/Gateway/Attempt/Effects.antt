-- ===== src/Gateway/Attempt/Effects.antt =====
-- What one attempt does: it calls the provider at most once, and only with an attempt in the
-- ledger.
use alzette.Shared.{ℕ, String, ◌==◌, ◌≡◌, ◌⊎◌, inl, inr, refl, ◌∷◌, arith, if_cases, Option-cases}
use alzette.Platform.{Result-cases, Time, Route, AttemptStart}
use alzette.Gateway.Outcome.{AttemptResult}
use alzette.Gateway.World.{
  StoreOps, ProviderError, Reply, failed, answered, empty, Exchange, Upstream, Env, Config, World,
}
use alzette.Gateway.Attempt.{
  Closing, close_attempt, close_failed, close_answered, close_reply, send, exchange,
  perform_attempt,
}

module _ {S : Type 0} (env : Env) (ops : StoreOps S) (config : Config) where
  -- The provider is not called and no pause is made.
  abbrev pub Quiet : World S → AttemptResult × World S → Type 0
  Quiet w x = (x.1.sent ≡ w.sent) × (x.1.pauses ≡ w.pauses)

  pub close_attempt-Quiet :
      (id : String) (t : Time) (c : Closing) (r : AttemptResult) (w : World S)
      → Quiet w (close_attempt env ops config id t c r w)
  unfolding close_attempt
  close_attempt-Quiet id t c r w = ground arith

  close_failed-Quiet :
      (id : String) (t : Time) (e : ProviderError) (x : Exchange) (w : World S)
      → Quiet w (close_failed env ops config id t e x w)
  unfolding close_failed
  close_failed-Quiet id t e x w =
      if_cases (Quiet w) x.cancelled _ _ (close_attempt-Quiet id t _ _ w) (
        if_cases (Quiet w) x.timed_out _ _ (close_attempt-Quiet id t _ _ w) (
          if_cases (Quiet w) (e.retry_after == "") _ _ (close_attempt-Quiet id t _ _ w)
            (close_attempt-Quiet id t _ _ _)))

  close_reply-Quiet :
      (id : String) (t : Time) (r : Reply) (x : Exchange) (w : World S)
      → Quiet w (close_reply env ops config id t r x w)
  unfolding close_reply close_answered
  close_reply-Quiet id t (failed e) x w = close_failed-Quiet id t e x w
  close_reply-Quiet id t (answered a) x w =
      if_cases (Quiet w) _ _ _ (close_attempt-Quiet id t _ _ w) (close_attempt-Quiet id t _ _ w)
  close_reply-Quiet id t empty x w = close_attempt-Quiet id t _ _ w

  exchange-sent :
      (id : String) (t : Time) (call : Upstream) (w : World S)
      → ((exchange env ops config id t call w).1.sent ≡ call ∷ w.sent)
        × ((exchange env ops config id t call w).1.pauses ≡ w.pauses)
  unfolding exchange send
  exchange-sent id t call w =
      let x = (send env ops config call w).0 in close_reply-Quiet id t x.reply x _

  -- One call at most, with the attempt's own number, for its own request and target.
  abbrev pub SendsOnce : String → Route → ℕ → World S → AttemptResult × World S → Type 0
  SendsOnce id route n w x =
      (x.1.pauses ≡ w.pauses)
      × ((x.1.sent ≡ w.sent)
          ⊎ ((u : Upstream) × (x.1.sent ≡ u ∷ w.sent)
              × (u.request_id ≡ id)
              × (u.attempt_number ≡ n)
              × (u.target_id ≡ route.target.id)))

  -- One attempt makes no pause and calls the provider at most once, under its own attempt number,
  -- for its own request and target.
  pub perform_attempt-SendsOnce :
      (id : String) (route : Route) (secret body : String) (n : ℕ) (w : World S)
      → SendsOnce id route n w (perform_attempt env ops config id route secret body n w)
  unfolding perform_attempt
  perform_attempt-SendsOnce id route secret body n w =
      elim (Option-cases (env.new_id w.draws "att")) [
        | inl m ↦ rw (m, perform_attempt) (refl, inl refl)
        | inr (a, y) ↦
            let start : AttemptStart = record {
              id = a;
              inference_request_id = id;
              target_id = route.target.id;
              attempt_number = n;
              started_at = env.now w.ticks;
            } in
            elim (Result-cases (ops.create_provider_attempt start w.store).0) [
              | inr (e, r) ↦ rw (y, r, perform_attempt) (refl, inl refl)
              | inl (u, r) ↦
                  rw (y, r, perform_attempt)
                    (let (sent, calm) = exchange-sent a (env.now w.ticks) _ _ in
                      (calm, inr (_, sent, refl, refl, refl)))
            ]
      ]
