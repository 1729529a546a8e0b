-- ===== src/Gateway/Finish/Agreement.antt =====
-- The answer to the client and the entry in the ledger agree. Of the store this needs two laws.
use alzette.Shared.{
  ℕ, String, ◌==◌, ◌≡◌, ◌⊎◌, inl, inr, refl, Bool, true, false, Option, some, Bool-cases, if_cases,
  Option-cases, ◌∙◌,
}
use alzette.Platform.{Time, Result, ok, err, Route, RequestFinish}
use alzette.Gateway.Outcome.{AttemptResult, failure, failure_health_status}
use alzette.Gateway.World.{StoreOps, Env, Config, World}
use alzette.Gateway.Reply.{Response, write_error, Opened, Ending, ledger_unavailable}
use alzette.Gateway.Finish.{
  Backend, finish, report_health, conclude, conclude_target, serve_failure, serve_success,
  attempt_loop, serve_attempts,
}

-- The status and the HTTP status that a request was completed with, and what keeps them.
pub record LedgerLaws {S : Type 0} (ops : StoreOps S) : Type 0 where
  pub outcome : S → String → Option (String × ℕ)
  pub completed :
      (f : RequestFinish) (s : S)
      → (ops.complete_inference_request f s).0 ≡ ok tt
      → outcome (ops.complete_inference_request f s).1 f.id ≡ some (f.status, f.http_status)
  pub health_keeps :
      (i status : String) (t : Time) (b : Bool) (s : S) (k : String)
      → outcome (ops.update_target_health i status t b s).1 k ≡ outcome s k

module _ {S : Type 0} (env : Env) (ops : StoreOps S) (config : Config) (backend : Backend)
    (laws : LedgerLaws ops) where
  -- Either the client is told that the ledger failed, or the ledger has the status of the answer;
  -- and a body is only sent for a request that the ledger has as succeeded.
  abbrev pub Agrees : String → Response × World S → Type 0
  Agrees id x =
      ((x.0.status ≡ 503) × (x.0.code ≡ "ledger_unavailable") × (x.0.body ≡ ""))
      ⊎ ((status : String) × (laws.outcome x.1.store id ≡ some (status, x.0.status))
          × ((status ≡ "succeeded") ⊎ (x.0.body ≡ "")))

  finish_outcome :
      (o : Opened) (e : Ending) (w : World S)
      → (finish env ops config backend o e w).0 ≡ true
      → laws.outcome (finish env ops config backend o e w).1.store o.request_id
        ≡ some (e.status, e.http_status)
  unfolding finish
  finish_outcome o e w h = laws.completed _ w.store (succeeded _ h)
    where
      succeeded :
          (r : Result (Unit {0}))
          → elim r as (λ _. Bool) [ ok u ↦ true | err x ↦ false ] ≡ true
          → r ≡ ok tt
      succeeded (ok u) k = refl
      succeeded (err x) k = cc

  pub conclude-Agrees :
      (o : Opened) (e : Ending) (r : Response) (w : World S)
      → e.http_status ≡ r.status
      → (e.status ≡ "succeeded") ⊎ (r.body ≡ "")
      → Agrees o.request_id (conclude env ops config backend o e r w)
  unfolding conclude ledger_unavailable write_error
  conclude-Agrees o e r w h b = elim (Bool-cases (finish env ops config backend o e w).0) [
    | inl y ↦ rw (y, conclude) (inr (e.status, rw (← h) (finish_outcome o e w y), b))
    | inr n ↦ rw (n, conclude) (inl (refl, refl, refl))
  ]

  pub conclude_target-Agrees :
      (o : Opened) (e : Ending) (r : Response) (route : Route) (health : String) (b : Bool)
      (w : World S)
      → e.http_status ≡ r.status
      → (e.status ≡ "succeeded") ⊎ (r.body ≡ "")
      → Agrees o.request_id (conclude_target env ops config backend o e r route health b w)
  unfolding conclude_target ledger_unavailable write_error report_health
  conclude_target-Agrees o e r route health b w h d =
      elim (Bool-cases (finish env ops config backend o e w).0) [
        | inr n ↦ rw (n, conclude_target) (inl (refl, refl, refl))
        | inl y ↦ elim (Bool-cases (health == "")) [
          | inl z ↦
              rw (y, z, conclude_target) (inr (e.status, rw (← h) (finish_outcome o e w y), d))
          | inr z ↦
              rw (y, z, conclude_target)
                (inr
                  (e.status, laws.health_keeps _ _ _ _ _ _ ∙ rw (← h) (finish_outcome o e w y), d))
        ]
      ]

  pub serve_failure-Agrees :
      (o : Opened) (route : Route) (t : AttemptResult) (w : World S)
      → Agrees o.request_id (serve_failure env ops config backend o route t w)
  unfolding serve_failure write_error
  serve_failure-Agrees o route t w =
      conclude_target-Agrees o _ _ route (failure_health_status t.class) false w refl (inr refl)

  serve_success-Agrees :
      (o : Opened) (route : Route) (t : AttemptResult) (w : World S)
      → Agrees o.request_id (serve_success env ops config backend o route t w)
  unfolding serve_success write_error
  serve_success-Agrees o route t w =
      elim (Option-cases
        (backend.encode_response o.protocol t.body o.request_id o.parsed.model (env.now w.ticks))) [
          | inl n ↦ rw (n, serve_success) (conclude-Agrees o _ _ _ refl (inr refl))
          | inr (body, y) ↦
              rw (y, serve_success)
                (conclude_target-Agrees o _ _ route "operational" true _ refl (inl refl))
        ]

  -- For a store that keeps the outcome of a completed request, the end of the attempts agrees with
  -- the ledger: the client is told by 503 that the ledger failed, or the ledger has the status of
  -- the answer, and a completion is only sent for a request that it has as "succeeded".
  pub serve_attempts-Agrees :
      (o : Opened) (route : Route) (secret body : String) (w : World S)
      → Agrees o.request_id (serve_attempts env ops config backend o route secret body w)
  unfolding serve_attempts
  serve_attempts-Agrees o route secret body w =
      let (t, v) =
        attempt_loop env ops config backend o route secret body route.target.max_attempts 1
          (failure "" 0 "") w in
      if_cases (Agrees o.request_id) t.success (serve_success env ops config backend o route t v)
        (serve_failure env ops config backend o route t v) (serve_success-Agrees o route t v)
        (serve_failure-Agrees o route t v)
