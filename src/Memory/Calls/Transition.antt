-- ===== src/Memory/Calls/Transition.antt =====
-- What a call may do to the ledger, as a step relation, and that each call does one of these.
use alzette.Shared.{
  suc, String, ◌==◌, ◌≡◌, ◌≢◌, refl, inl, inr, none, some, arith, eq_iff, eqb_iff, Bool-cases,
  Option-cases, Bool, true, if◌then◌else◌,
}
use alzette.Shared.Dict.{get, put, has}
use alzette.Platform.{
  RequestStart, RequestFinish, AttemptStart, AttemptFinish, InferenceRequest, ProviderAttempt,
  Target, Time,
}
use alzette.Memory.Defs.{Store, Binding, Model}
use alzette.Memory.Ledger.{
  create_inference_request, set_inference_request_route, complete_inference_request,
  create_provider_attempt, complete_provider_attempt, update_target_health, may_bind, is_unbound,
  fits_request, started_request, started_attempt,
}
use alzette.Memory.Calls.{Call, begin, bind, finish, try, settle, observe, step}

-- The record of a request after it took a route.
unfoldable pub bound_request : String → Binding → InferenceRequest → InferenceRequest
bound_request route_id rt r = record r {
  route_id = route_id;
  bound_target_id = rt.target_id;
  bound_model_id = rt.model_id;
  route_binding_generation = rt.binding_generation;
}

unfoldable pub finished_request : RequestFinish → InferenceRequest → InferenceRequest
finished_request f r = record r {
  completed_at = some f.completed_at;
  status = f.status;
  http_status = f.http_status;
  error_class = f.error_class;
  executed_model = f.executed_model;
  provider_request_id = f.provider_request_id;
  duration = f.duration;
  usage = f.usage;
  usage_finality = f.usage_finality;
}

unfoldable pub finished_attempt : AttemptFinish → ProviderAttempt → ProviderAttempt
finished_attempt f a = record a {
  completed_at = some f.completed_at;
  status = f.status;
  provider_http_status = f.provider_http_status;
  error_class = f.error_class;
  duration = f.duration;
  provider_request_id = f.provider_request_id;
  usage = f.usage;
  usage_finality = if f.usage_finality == "" then "unknown" else f.usage_finality;
}

abbrev pub IsOpen : InferenceRequest → Type 0
IsOpen r = r.status ≡ "in_progress"

-- What a call may do: nothing, or the one transition of its kind under the conditions of that kind.
-- A request is bound while it is open, without a route and untried, and finished while it is open. A
-- call may finish it with the status "in_progress" again, or bind it to a route with an empty
-- identifier: then it still is what it was in that respect.
pub data Transition (s : Store) : Call → Store → Type 0 where
  unchanged : (c : Call) → Transition s c s
  begun :
      (start : RequestStart) (q : InferenceRequest)
      → get s.requests start.id ≡ none
      → q ≡ started_request start
      → Transition s (begin start) (record s { requests = put s.requests start.id q })
  bound :
      (i j : String) (r q : InferenceRequest) (rt : Binding) (mdl : Model)
      → get s.requests i ≡ some r
      → get s.routes j ≡ some rt
      → get s.models rt.model_id ≡ some mdl
      → may_bind r rt mdl ≡ true
      → IsOpen r
      → r.route_id ≡ ""
      → r.attempt_count ≡ 0
      → q ≡ bound_request j rt r
      → Transition s (bind i j) (record s { requests = put s.requests i q })
  finished :
      (f : RequestFinish) (r q : InferenceRequest)
      → get s.requests f.id ≡ some r
      → IsOpen r
      → q ≡ finished_request f r
      → Transition s (finish f) (record s { requests = put s.requests f.id q })
  tried :
      (start : AttemptStart) (r q : InferenceRequest) (a : ProviderAttempt)
      → get s.attempts start.id ≡ none
      → get s.requests start.inference_request_id ≡ some r
      → IsOpen r
      → r.route_id ≢ ""
      → r.bound_target_id ≡ start.target_id
      → start.attempt_number ≡ suc r.attempt_count
      → q ≡ record r { attempt_count = suc r.attempt_count }
      → a ≡ started_attempt start
      → Transition s
          (try start)
          (record s { attempts = put s.attempts start.id a; requests = put s.requests r.id q })
  settled :
      (f : AttemptFinish) (a b : ProviderAttempt)
      → get s.attempts f.id ≡ some a
      → a.status ≡ "in_progress"
      → b ≡ finished_attempt f a
      → Transition s (settle f) (record s { attempts = put s.attempts f.id b })
  observed :
      (i status : String) (checked_at : Time) (successful : Bool) (t u : Target)
      → get s.targets i ≡ some t
      → u ≡ record t {
        health_status = status;
        last_health_check_at = some checked_at;
        last_success_at = if successful then some checked_at else t.last_success_at;
      }
      → Transition s
          (observe i status checked_at successful)
          (record s { targets = put s.targets i u })

is_unbound_fields :
    (r : InferenceRequest)
    → is_unbound r ≡ true
    → IsOpen r × (r.route_id ≡ "") × (r.attempt_count ≡ 0)
unfolding is_unbound
is_unbound_fields r u =
    ground (arith, eq_iff r.status "in_progress", eq_iff r.route_id "", eqb_iff r.attempt_count 0)

begin-Transition :
    (start : RequestStart) (s : Store)
    → Transition s (begin start) (create_inference_request start s).1
unfolding create_inference_request has
begin-Transition start s = elim (Option-cases (get s.requests start.id)) [
  | inl missing ↦
      rw (missing, create_inference_request, has) (begun start (started_request start) missing refl)
  | inr (r, found) ↦ rw (found, create_inference_request, has) (unchanged _)
]

bind-Transition :
    (i j : String) (s : Store) → Transition s (bind i j) (set_inference_request_route i j s).1
unfolding set_inference_request_route bound_request
bind-Transition i j s = elim (Option-cases (get s.requests i)) [
  | inl missing ↦ rw (missing, set_inference_request_route) (unchanged _)
  | inr (r, found) ↦ elim (Option-cases (get s.routes j)) [
    | inl missing ↦ rw (found, missing, set_inference_request_route) (unchanged _)
    | inr (rt, routed) ↦ elim (Option-cases (get s.models rt.model_id)) [
      | inl missing ↦ rw (found, routed, missing, set_inference_request_route) (unchanged _)
      | inr (mdl, known) ↦ elim (Bool-cases (may_bind r rt mdl)) [
        | inr n ↦ rw (found, routed, known, n, set_inference_request_route) (unchanged _)
        | inl y ↦ elim (Bool-cases (is_unbound r)) [
          | inr n ↦ rw (found, routed, known, y, n, set_inference_request_route) (unchanged _)
          | inl u ↦
              let (opened, unrouted, untried) = is_unbound_fields r u in
              rw (found, routed, known, y, u, set_inference_request_route)
                (bound i j r _ rt mdl found routed known y opened unrouted untried refl)
        ]
      ]
    ]
  ]
]

finish-Transition :
    (f : RequestFinish) (s : Store) → Transition s (finish f) (complete_inference_request f s).1
unfolding complete_inference_request finished_request
finish-Transition f s = elim (Option-cases (get s.requests f.id)) [
  | inl missing ↦ rw (missing, complete_inference_request) (unchanged _)
  | inr (r, found) ↦ elim (Bool-cases (r.status == "in_progress")) [
    | inr n ↦ rw (found, n, complete_inference_request) (unchanged _)
    | inl y ↦
        rw (found, y, complete_inference_request)
          (finished f r _ found ((eq_iff r.status "in_progress").0 y) refl)
  ]
]

fits_request_fields :
    (r : InferenceRequest) (start : AttemptStart)
    → fits_request r start ≡ true
    → (r.route_id ≢ "")
      × (r.bound_target_id ≡ start.target_id)
      × (start.attempt_number ≡ suc r.attempt_count)
unfolding fits_request
fits_request_fields r start h = ground (
  arith,
  eq_iff r.route_id "",
  eq_iff r.bound_target_id start.target_id,
  eqb_iff start.attempt_number (suc r.attempt_count),
)

try-Transition :
    (start : AttemptStart) (s : Store)
    → Transition s (try start) (create_provider_attempt start s).1
unfolding create_provider_attempt has
try-Transition start s = elim (Option-cases (get s.attempts start.id)) [
  | inr (a, found) ↦ rw (found, create_provider_attempt, has) (unchanged _)
  | inl fresh ↦ elim (Option-cases (get s.requests start.inference_request_id)) [
    | inl missing ↦ rw (fresh, missing, create_provider_attempt, has) (unchanged _)
    | inr (r, found) ↦ elim (Bool-cases (r.status == "in_progress")) [
      | inr n ↦ rw (fresh, found, n, create_provider_attempt, has) (unchanged _)
      | inl y ↦ elim (Bool-cases (fits_request r start)) [
        | inr n ↦ rw (fresh, found, y, n, create_provider_attempt, has) (unchanged _)
        | inl fits ↦
            let (routed, target, next) = fits_request_fields r start fits in
            rw (fresh, found, y, fits, create_provider_attempt, has)
              (tried start r _ _ fresh found ((eq_iff r.status "in_progress").0 y) routed target
                next refl refl)
      ]
    ]
  ]
]

settle-Transition :
    (f : AttemptFinish) (s : Store) → Transition s (settle f) (complete_provider_attempt f s).1
unfolding complete_provider_attempt finished_attempt
settle-Transition f s = elim (Option-cases (get s.attempts f.id)) [
  | inl missing ↦ rw (missing, complete_provider_attempt) (unchanged _)
  | inr (a, found) ↦ elim (Bool-cases (a.status == "in_progress")) [
    | inr n ↦ rw (found, n, complete_provider_attempt) (unchanged _)
    | inl y ↦
        rw (found, y, complete_provider_attempt)
          (settled f a _ found ((eq_iff a.status "in_progress").0 y) refl)
  ]
]

-- Each call changes nothing, or makes the one transition of its kind. A request is entered under a
-- free identifier; bound to a route that is there and that its model and scope allow, while it is in
-- progress, without a route identifier and untried; tried while it is in progress and routed, at its
-- bound target and with the next number, which counts the attempt; and finished while it is in
-- progress, as an attempt is settled while that is. A finish takes the status that the call gives.
pub step-Transition : (s : Store) (c : Call) → Transition s c (step s c)
unfolding step update_target_health
step-Transition s (begin start) = begin-Transition start s
step-Transition s (bind i j) = bind-Transition i j s
step-Transition s (finish f) = finish-Transition f s
step-Transition s (try start) = try-Transition start s
step-Transition s (settle f) = settle-Transition f s
step-Transition s (observe i status checked_at successful) = elim (Option-cases (get s.targets i)) [
  | inl missing ↦ rw (missing, step, update_target_health) (unchanged _)
  | inr (t, found) ↦
      rw (found, step, update_target_health)
        (observed i status checked_at successful t _ found refl)
]
