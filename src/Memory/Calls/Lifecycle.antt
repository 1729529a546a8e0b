-- ===== src/Memory/Calls/Lifecycle.antt =====
-- What a call may still do to a request, and to an attempt, that is in the ledger.
use alzette.Shared.{
  ◌≤◌, String, ◌==◌, eq_iff, ◌≡◌, ◌≢◌, inl, inr, subst, some, List, [], ◌∷◌, arith, Bool-cases,
}
use alzette.Shared.Dict.{get, put, get-put}
use alzette.Platform.{InferenceRequest}
use alzette.Memory.Defs.{Store}
use alzette.Memory.Calls.{Call, step, run}
use alzette.Memory.Calls.Transition.{
  Transition, unchanged, begun, bound, finished, tried, settled, observed, bound_request,
  finished_request, step-Transition,
}
use alzette.Memory.Calls.Invariant.{IsSound, Transition-IsSound}

-- `q` is a later state of the request `r`: who made it and for which model never changes; its
-- route and its target do not change once it has a route; attempts are only added; and a request
-- that is no longer in progress does not change at all.
pub record Later (r q : InferenceRequest) : Type 0 where
  pub id : q.id ≡ r.id
  pub organisation : q.organisation_id ≡ r.organisation_id
  pub project : q.project_id ≡ r.project_id
  pub environment : q.environment_id ≡ r.environment_id
  pub account : q.service_account_id ≡ r.service_account_id
  pub key : q.api_key_id ≡ r.api_key_id
  pub alias : q.model_alias ≡ r.model_alias
  pub start : q.started_at ≡ r.started_at
  pub attempts : r.attempt_count ≤ q.attempt_count
  pub route : r.route_id ≢ "" → q.route_id ≡ r.route_id
  pub target : r.route_id ≢ "" → q.bound_target_id ≡ r.bound_target_id
  pub model : r.route_id ≢ "" → q.bound_model_id ≡ r.bound_model_id
  pub generation : r.route_id ≢ "" → q.route_binding_generation ≡ r.route_binding_generation
  pub closed : r.status ≢ "in_progress" → q ≡ r

pub Later-refl : (r : InferenceRequest) → Later r r
Later-refl r = ground arith

pub Later-trans : (p q r : InferenceRequest) → Later p q → Later q r → Later p r
Later-trans p q r h k = ground arith

abbrev pub Lasts : String → InferenceRequest → Store → Type 0
Lasts k r t = (q : InferenceRequest) × (get t.requests k ≡ some q) × Later r q

-- One request is rewritten, and that to a later state.
put-Lasts :
    (s : Store) (k i : String) (r p q : InferenceRequest)
    → get s.requests k ≡ some r
    → get s.requests i ≡ some p
    → Later p q
    → (x : InferenceRequest) × (get (put s.requests i q) k ≡ some x) × Later r x
put-Lasts s k i r p q found old later = elim (Bool-cases (i == k)) [
  | inl h ↦ (
    q,
    ground (arith, get-put s.requests i k q),
    let e : p ≡ r = ground (arith, eq_iff i k) in subst (λ x. Later x q) e later,
  )
  | inr h ↦ (r, ground (arith, get-put s.requests i k q), Later-refl r)
]

pub Transition-Lasts :
    {s t : Store} {c : Call} (k : String) (r : InferenceRequest)
    → Transition s c t
    → IsSound s
    → get s.requests k ≡ some r
    → Lasts k r t
unfolding bound_request finished_request
Transition-Lasts k r (unchanged c) v found = (r, found, Later-refl r)
Transition-Lasts {s} k r (begun start q missing e) v found =
    (r, ground (arith, get-put s.requests start.id k q, eq_iff start.id k), Later-refl r)
Transition-Lasts {s} k r (bound i j p q rt mdl old routed known may opened unrouted untried e) v
      found =
    put-Lasts s k i r p q found old (ground arith)
Transition-Lasts {s} k r (finished f p q old opened e) v found =
    put-Lasts s k f.id r p q found old (ground arith)
Transition-Lasts {s} k r (tried start p q a fresh old opened routed target next e1 e2) v found =
    put-Lasts s k p.id r p q found (ground (arith, v.keyed start.inference_request_id p old))
      (ground arith)
Transition-Lasts k r (settled f a b old opened e) v found = (r, found, Later-refl r)
Transition-Lasts k r (observed i status checked_at successful t u there e) v found =
    (r, found, Later-refl r)

-- A request of a sound ledger is still there after any calls, in a later state: same tenant, key
-- and model; same route, target, model and binding generation once it is routed; no attempt lost;
-- and unchanged if it was no longer in progress.
pub run-Later :
    (s : Store) (cs : List Call) (k : String) (r : InferenceRequest)
    → IsSound s
    → get s.requests k ≡ some r
    → (q : InferenceRequest) × (get (run s cs).requests k ≡ some q) × Later r q
unfolding run
run-Later s [] k r v found = (r, found, Later-refl r)
run-Later s (c ∷ cs) k r v found =
    let change = step-Transition s c in
    let (p, there, lasts) = Transition-Lasts k r change v found in
    let (q, end, later) = run-Later (step s c) cs k p (Transition-IsSound change v) there in
    (q, end, Later-trans r p q lasts later)
