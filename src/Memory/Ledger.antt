-- ===== src/Memory/Ledger.antt =====
-- The request ledger: CreateInferenceRequest, SetInferenceRequestRoute, CompleteInferenceRequest,
-- CreateProviderAttempt, CompleteProviderAttempt and UpdateTargetHealth.
use alzette.Shared.{suc, String, ◌==◌, Bool, ◌&&◌, not, none, some, eqb, if◌then◌else◌}
use alzette.Shared.Dict.{get, put, has}
use alzette.Platform.{
  Time, Result, ok, err, not_found, forbidden, conflict, RequestStart, RequestFinish, AttemptStart,
  AttemptFinish, InferenceRequest, ProviderAttempt, no_usage,
}
use alzette.Memory.Defs.{Store, Binding, Model}

-- The record that a request starts with.
unfoldable pub started_request : RequestStart → InferenceRequest
started_request start = record {
  id = start.id;
  organisation_id = start.principal.organisation_id;
  project_id = start.principal.project_id;
  environment_id = start.principal.environment_id;
  route_id = "";
  bound_target_id = "";
  bound_model_id = "";
  route_binding_generation = 0;
  service_account_id = start.principal.service_account_id;
  api_key_id = start.principal.api_key_id;
  key_prefix = start.principal.key_prefix;
  model_alias = start.model_alias;
  executed_model = "";
  provider_request_id = "";
  started_at = start.started_at;
  completed_at = none;
  status = "in_progress";
  http_status = 0;
  error_class = "";
  duration = 0;
  usage = no_usage;
  usage_finality = "unknown";
  attempt_count = 0;
}

unfoldable pub create_inference_request : RequestStart → Store → Result (Unit {0}) × Store
unfolding started_request
create_inference_request start s =
    if has s.requests start.id
    then (err conflict, s)
    else (ok tt, record s { requests = put s.requests start.id (started_request start) })

-- The request may take the route: same alias, same organisation, project and environment.
unfoldable pub may_bind : InferenceRequest → Binding → Model → Bool
may_bind r rt mdl =
    mdl.alias == r.model_alias
    && (rt.organisation_id == r.organisation_id
        && (rt.project_id == r.project_id && rt.environment_id == r.environment_id))

-- The request is open, has no route and no attempt.
unfoldable pub is_unbound : InferenceRequest → Bool
is_unbound r = r.status == "in_progress" && (r.route_id == "" && eqb r.attempt_count 0)

unfoldable pub set_inference_request_route : String → String → Store → Result (Unit {0}) × Store
unfolding may_bind is_unbound
set_inference_request_route request_id route_id s = elim (get s.requests request_id) [
  | none ↦ (err not_found, s)
  | some r ↦ elim (get s.routes route_id) [
    | none ↦ (err forbidden, s)
    | some rt ↦ elim (get s.models rt.model_id) [
      | none ↦ (err forbidden, s)
      | some mdl ↦
          if not (may_bind r rt mdl)
          then (err forbidden, s)
          else if not (is_unbound r)
          then (err conflict, s)
          else (
            ok tt,
            record s {
              requests = put s.requests request_id (record r {
                route_id = route_id;
                bound_target_id = rt.target_id;
                bound_model_id = rt.model_id;
                route_binding_generation = rt.binding_generation;
              });
            },
          )
    ]
  ]
]

unfoldable pub complete_inference_request : RequestFinish → Store → Result (Unit {0}) × Store
complete_inference_request finish s = elim (get s.requests finish.id) [
  | none ↦ (err not_found, s)
  | some r ↦ if not (r.status == "in_progress") then (err conflict, s) else (
    ok tt,
    record s {
      requests = put s.requests finish.id (record r {
        completed_at = some finish.completed_at;
        status = finish.status;
        http_status = finish.http_status;
        error_class = finish.error_class;
        executed_model = finish.executed_model;
        provider_request_id = finish.provider_request_id;
        duration = finish.duration;
        usage = finish.usage;
        usage_finality = finish.usage_finality;
      });
    },
  )
]

unfoldable pub started_attempt : AttemptStart → ProviderAttempt
started_attempt start = record {
  id = start.id;
  inference_request_id = start.inference_request_id;
  target_id = start.target_id;
  attempt_number = start.attempt_number;
  started_at = start.started_at;
  completed_at = none;
  status = "in_progress";
  provider_http_status = 0;
  error_class = "";
  duration = 0;
  provider_request_id = "";
  usage = no_usage;
  usage_finality = "unknown";
}

-- The attempt is the next one of a bound request, at the target that the request is bound to.
unfoldable pub fits_request : InferenceRequest → AttemptStart → Bool
fits_request r start =
    not (r.route_id == "")
    && (not (r.bound_target_id == "")
        && (r.bound_target_id == start.target_id && eqb start.attempt_number (suc r.attempt_count)))

unfoldable pub create_provider_attempt : AttemptStart → Store → Result (Unit {0}) × Store
unfolding started_attempt fits_request
create_provider_attempt start s =
    if has s.attempts start.id
    then (err conflict, s)
    else elim (get s.requests start.inference_request_id) [
      | none ↦ (err not_found, s)
      | some r ↦
          if not (r.status == "in_progress")
          then (err conflict, s)
          else if not (fits_request r start)
          then (err conflict, s)
          else (
            ok tt,
            record s {
              attempts = put s.attempts start.id (started_attempt start);
              requests = put s.requests r.id (record r { attempt_count = suc r.attempt_count });
            },
          )
    ]

unfoldable pub complete_provider_attempt : AttemptFinish → Store → Result (Unit {0}) × Store
complete_provider_attempt finish s = elim (get s.attempts finish.id) [
  | none ↦ (err not_found, s)
  | some a ↦ if not (a.status == "in_progress") then (err conflict, s) else (
    ok tt,
    record s {
      attempts = put s.attempts finish.id (record a {
        completed_at = some finish.completed_at;
        status = finish.status;
        provider_http_status = finish.provider_http_status;
        error_class = finish.error_class;
        duration = finish.duration;
        provider_request_id = finish.provider_request_id;
        usage = finish.usage;
        usage_finality = if finish.usage_finality == "" then "unknown" else finish.usage_finality;
      });
    },
  )
]

unfoldable pub update_target_health :
    String → String → Time → Bool → Store → Result (Unit {0}) × Store
update_target_health target_id status checked_at successful s = elim (get s.targets target_id) [
  | none ↦ (err not_found, s)
  | some t ↦ (
    ok tt,
    record s {
      targets = put s.targets target_id (record t {
        health_status = status;
        last_health_check_at = some checked_at;
        last_success_at = if successful then some checked_at else t.last_success_at;
      });
    },
  )
]
