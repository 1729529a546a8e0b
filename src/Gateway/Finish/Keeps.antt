-- ===== src/Gateway/Finish/Keeps.antt =====
-- What every operation of the store keeps, the attempts and the completion of a request keep.
use alzette.Shared.{
  ℕ, zero, suc, String, ◌==◌, inl, inr, Bool, true, false, ◌||◌, if_cases, Option-cases, not, eqb,
}
use alzette.Shared.Int.{ℤ}
use alzette.Platform.{
  Result-cases, Time, Route, RequestStart, RequestFinish, AttemptStart, AttemptFinish,
}
use alzette.Gateway.Outcome.{AttemptResult, failure, elapsed}
use alzette.Gateway.World.{
  StoreOps, ProviderError, Reply, failed, answered, empty, Exchange, Upstream, Env, Config, World,
}
use alzette.Gateway.Attempt.{
  Closing, close_attempt, close_failed, close_answered, close_reply, send, exchange,
  perform_attempt,
}
use alzette.Gateway.Reply.{Response, Opened, Ending}
use alzette.Gateway.Finish.{
  Backend, finish, report_health, conclude, conclude_target, serve_failure, serve_success, wait,
  retry_delay, attempt_loop, serve_attempts,
}

-- The property holds after each operation if it held before.
pub record Keeps {S : Type 0} (ops : StoreOps S) (P : S → Type 0) : Type 0 where
  pub create_request : (x : RequestStart) (s : S) → P s → P (ops.create_inference_request x s).1
  pub set_route : (i j : String) (s : S) → P s → P (ops.set_inference_request_route i j s).1
  pub complete_request :
      (x : RequestFinish) (s : S) → P s → P (ops.complete_inference_request x s).1
  pub create_attempt : (x : AttemptStart) (s : S) → P s → P (ops.create_provider_attempt x s).1
  pub complete_attempt : (x : AttemptFinish) (s : S) → P s → P (ops.complete_provider_attempt x s).1
  pub health :
      (i status : String) (t : Time) (b : Bool) (s : S)
      → P s
      → P (ops.update_target_health i status t b s).1

module _ {S : Type 0} (env : Env) (ops : StoreOps S) (config : Config) (backend : Backend)
    (P : S → Type 0) (keeps : Keeps ops P) where
  abbrev pub Kept {ℓ} : {A : Type ℓ} → A × World S → Type 0
  Kept x = P x.1.store

  pub close_attempt-Kept :
      (id : String) (t : Time) (c : Closing) (r : AttemptResult) (w : World S)
      → P w.store
      → Kept (close_attempt env ops config id t c r w)
  unfolding close_attempt
  close_attempt-Kept id t c r w h =
      let f : AttemptFinish = record {
        id = id;
        completed_at = env.now w.ticks;
        status = c.status;
        provider_http_status = c.http_status;
        error_class = c.class;
        duration = elapsed t (env.now (suc w.ticks));
        provider_request_id = c.provider_id;
        usage = c.usage;
        usage_finality = c.finality;
      } in
      let kept = keeps.complete_attempt f w.store h in
      elim (Result-cases (ops.complete_provider_attempt f w.store).0) [
        | inl (u, e) ↦ rw (e, close_attempt) kept
        | inr (u, e) ↦ rw (e, close_attempt) kept
      ]

  close_failed-Kept :
      (id : String) (t : Time) (e : ProviderError) (x : Exchange) (w : World S)
      → P w.store
      → Kept (close_failed env ops config id t e x w)
  unfolding close_failed
  close_failed-Kept id t e x w h = if_cases Kept x.cancelled _ _ (close_attempt-Kept id t _ _ w h) (
      if_cases Kept x.timed_out _ _ (close_attempt-Kept id t _ _ w h) (
        if_cases Kept (e.retry_after == "") _ _ (close_attempt-Kept id t _ _ w h)
          (close_attempt-Kept id t _ _ _ h)))

  close_reply-Kept :
      (id : String) (t : Time) (r : Reply) (x : Exchange) (w : World S)
      → P w.store
      → Kept (close_reply env ops config id t r x w)
  unfolding close_reply close_answered
  close_reply-Kept id t (failed e) x w h = close_failed-Kept id t e x w h
  close_reply-Kept id t (answered a) x w h =
      if_cases Kept _ _ _ (close_attempt-Kept id t _ _ w h) (close_attempt-Kept id t _ _ w h)
  close_reply-Kept id t empty x w h = close_attempt-Kept id t _ _ w h

  exchange-Kept :
      (id : String) (t : Time) (call : Upstream) (w : World S)
      → P w.store
      → Kept (exchange env ops config id t call w)
  unfolding exchange send
  exchange-Kept id t call w h =
      let x = (send env ops config call w).0 in close_reply-Kept id t x.reply x _ h

  perform_attempt-Kept :
      (id : String) (route : Route) (secret body : String) (n : ℕ) (w : World S)
      → P w.store
      → Kept (perform_attempt env ops config id route secret body n w)
  unfolding perform_attempt
  perform_attempt-Kept id route secret body n w h = elim (Option-cases (env.new_id w.draws "att")) [
    | inl m ↦ rw (m, perform_attempt) h
    | inr (a, y) ↦
        let start : AttemptStart = record {
          id = a;
          inference_request_id = id;
          target_id = route.target.id;
          attempt_number = n;
          started_at = env.now w.ticks;
        } in
        let kept = keeps.create_attempt start w.store h in
        elim (Result-cases (ops.create_provider_attempt start w.store).0) [
          | inr (e, r) ↦ rw (y, r, perform_attempt) kept
          | inl (u, r) ↦ rw (y, r, perform_attempt) (exchange-Kept a (env.now w.ticks) _ _ kept)
        ]
  ]

  pub wait-Kept : (z : ℤ) (w : World S) → P w.store → Kept (wait env ops config backend z w)
  unfolding wait
  wait-Kept z w h = if_cases Kept _ _ _ h h

  attempt_loop-Kept :
      (o : Opened) (route : Route) (secret body : String) (rounds n : ℕ) (t : AttemptResult)
      (w : World S)
      → P w.store
      → Kept (attempt_loop env ops config backend o route secret body rounds n t w)
  unfolding attempt_loop
  attempt_loop-Kept o route secret body zero n t w h = h
  attempt_loop-Kept o route secret body (suc k) n t w h =
      let x = perform_attempt env ops config o.request_id route secret body n w in
      let kept = perform_attempt-Kept o.request_id route secret body n w h in
      let z = retry_delay env ops config backend x.0 n in
      let y = wait env ops config backend z x.1 in
      let waited = wait-Kept z x.1 kept in
      if_cases Kept (x.0.success || (not x.0.retryable || eqb k 0)) _ _ kept (
        if_cases Kept y.0 _ _ waited
          (attempt_loop-Kept o route secret body k (suc n) x.0 y.1 waited))

  finish-Kept :
      (o : Opened) (e : Ending) (w : World S)
      → P w.store
      → Kept (finish env ops config backend o e w)
  unfolding finish
  finish-Kept o e w h = keeps.complete_request _ w.store h

  pub conclude-Kept :
      (o : Opened) (e : Ending) (r : Response) (w : World S)
      → P w.store
      → Kept (conclude env ops config backend o e r w)
  unfolding conclude
  conclude-Kept o e r w h = let kept = finish-Kept o e w h in if_cases Kept _ _ _ kept kept

  pub conclude_target-Kept :
      (o : Opened) (e : Ending) (r : Response) (route : Route) (health : String) (b : Bool)
      (w : World S)
      → P w.store
      → Kept (conclude_target env ops config backend o e r route health b w)
  unfolding conclude_target report_health
  conclude_target-Kept o e r route health b w h =
      let kept = finish-Kept o e w h in
      if_cases Kept _ _ _
        (if_cases (λ (v : World S). P v.store) (health == "") _ _ kept
          (keeps.health _ _ _ _ _ kept))
        kept

  pub serve_attempts-Kept :
      (o : Opened) (route : Route) (secret body : String) (w : World S)
      → P w.store
      → Kept (serve_attempts env ops config backend o route secret body w)
  unfolding serve_attempts serve_success serve_failure
  serve_attempts-Kept o route secret body w h =
      let (t, v) =
        attempt_loop env ops config backend o route secret body route.target.max_attempts 1
          (failure "" 0 "") w in
      let kept =
        attempt_loop-Kept o route secret body route.target.max_attempts 1 (failure "" 0 "") w h in
      if_cases Kept t.success (serve_success env ops config backend o route t v)
        (serve_failure env ops config backend o route t v)
        (elim (Option-cases (
          backend.encode_response o.protocol t.body o.request_id o.parsed.model
            (env.now v.ticks))) [
              | inl n ↦ rw (n, serve_success) (conclude-Kept o _ _ _ kept)
              | inr (body, y) ↦
                  rw (y, serve_success) (conclude_target-Kept o _ _ route "operational" true _ kept)
            ])
        (conclude_target-Kept o _ _ route _ false v kept)
