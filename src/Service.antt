-- ===== src/Service.antt =====
-- The gateway over the in-memory store: the store's operations as the interface of the gateway,
-- and what holds of the two together.
pub mod Ledger
use alzette.Shared.{
  ℕ, String, ◌==◌, eq_iff, eq_refl, ◌≡◌, refl, ◌⊎◌, inl, inr, Bool, Option, none, some,
  Option-cases, Bool-cases, true, false, not, arith, if◌then◌else◌,
}
use alzette.Shared.Dict.{get, put, get-put}
use alzette.Platform.{Time, Result, ok, err, not_found, conflict, RequestFinish, InferenceRequest}
use alzette.Memory.Defs.{Store}
use alzette.Memory.Access.{authenticate, resolve_route}
use alzette.Memory.Ledger.{
  create_inference_request, set_inference_request_route, complete_inference_request,
  create_provider_attempt, complete_provider_attempt, update_target_health,
}
use alzette.Gateway.World.{StoreOps}
use alzette.Gateway.Finish.Agreement.{LedgerLaws}

-- `var _ platform.Store = (*Store)(nil)`
abbrev pub memory_ops : StoreOps Store
memory_ops = record {
  authenticate = authenticate;
  resolve_route = resolve_route;
  create_inference_request = create_inference_request;
  set_inference_request_route = set_inference_request_route;
  complete_inference_request = complete_inference_request;
  create_provider_attempt = create_provider_attempt;
  complete_provider_attempt = complete_provider_attempt;
  update_target_health = update_target_health;
}

-- How a completed request ended.
abbrev pub outcome_of : Option InferenceRequest → Option (String × ℕ)
outcome_of none = none
outcome_of (some r) = elim r.completed_at [ none ↦ none | some t ↦ some (r.status, r.http_status) ]

pub completed_lem :
    (f : RequestFinish) (s : Store)
    → (complete_inference_request f s).0 ≡ ok tt
    → outcome_of (get (complete_inference_request f s).1.requests f.id)
      ≡ some (f.status, f.http_status)
unfolding complete_inference_request
completed_lem f s h = elim (Option-cases (get s.requests f.id)) [
  | inl n ↦ cc
  | inr (r, found) ↦ elim (Bool-cases (r.status == "in_progress")) [
    | inr n ↦ ground arith
    | inl y ↦ rw (found, y, complete_inference_request) (simp (get-put, eq_refl))
  ]
]

pub health_keeps_lem :
    (i status : String) (t : Time) (b : Bool) (s : Store) (k : String)
    → outcome_of (get (update_target_health i status t b s).1.requests k)
      ≡ outcome_of (get s.requests k)
unfolding update_target_health
health_keeps_lem i status t b s k = elim (Option-cases (get s.targets i)) [
  | inl n ↦ rw (n, update_target_health)
  | inr (target, y) ↦ rw (y, update_target_health)
]

abbrev pub memory_laws : LedgerLaws memory_ops
memory_laws = record {
  outcome = λ s k. outcome_of (get s.requests k);
  completed = completed_lem;
  health_keeps = health_keeps_lem;
}
