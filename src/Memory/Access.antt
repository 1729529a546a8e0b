-- ===== src/Memory/Access.antt =====
-- The reads: Authenticate, ResolveRoute, ListRoutes, ListInferenceRequests, GetInferenceRequest and
-- AttemptsForRequest, each within the scope of a principal; and RevokeKey.
pub mod Scope
pub mod Listing
pub mod Revocation
use Prim.Native.String.{compare}
use text.Mathlib.Text.{is_lt}
use alzette.Shared.{
  ℕ, String, ◌==◌, Bool, ◌&&◌, ◌||◌, not, true, false, Option, none, some, List, [], ◌∷◌, eqb, ltb,
  length, take, keep, if◌then◌else◌,
}
use alzette.Shared.Dict.{Dict, get, put, values}
use alzette.Shared.Sort.{sort}
use alzette.Platform.{
  Time, Digest, Result, ok, err, not_found, unauthenticated, unavailable, forbidden, Principal,
  Route, Target, InferenceRequest, ProviderAttempt, UsageFilter, RequestPage,
}
use alzette.Memory.Defs.{
  Store, ApiKey, ServiceAccount, Organisation, Project, Environment, Binding, Model, find_model,
  find_route, materialise_route,
}

-- The principal that an API key stands for.
unfoldable pub key_principal :
    ApiKey → ServiceAccount → Organisation → Project → Environment → Principal
key_principal key account org proj env = record {
  credential_kind = "";
  organisation_id = org.id;
  organisation_name = org.name;
  organisation_slug = org.slug;
  project_id = proj.id;
  project_name = proj.name;
  project_slug = proj.slug;
  environment_id = env.id;
  environment_name = env.name;
  environment_slug = env.slug;
  service_account_id = account.id;
  service_account = account.name;
  api_key_id = key.id;
  key_prefix = key.prefix;
  human_user_id = "";
  human_membership_id = "";
  agent_grant_id = "";
  agent_token_id = "";
  allowed_model_aliases = [];
  scopes = key.scopes;
}

unfoldable pub account_principal : ApiKey → ServiceAccount → Store → Result Principal
unfolding key_principal
account_principal key account s = elim (get s.organisations account.organisation_id) [
  | none ↦ err unauthenticated
  | some org ↦ elim (get s.projects account.project_id) [
    | none ↦ err unauthenticated
    | some proj ↦ elim (get s.environments account.environment_id) [
      | none ↦ err unauthenticated
      | some env ↦ ok (key_principal key account org proj env)
    ]
  ]
]

unfoldable pub authenticate : Digest → Store → Result Principal
unfolding account_principal
authenticate digest s = elim (get s.keys digest) [
  | none ↦ err unauthenticated
  | some key ↦ elim key.revoked_at [
    | some t ↦ err unauthenticated
    | none ↦ elim (get s.service_accounts key.service_account_id) [
      | none ↦ err unauthenticated
      | some account ↦ account_principal key account s
    ]
  ]
]

-- The target of a binding may serve the principal now.
unfoldable pub usable_target : Principal → Binding → Model → Target → Result Route
unfolding materialise_route
usable_target p rt mdl target =
    if not target.enabled || target.health_status == "unavailable"
    then err unavailable
    else if target.capacity_mode == "dedicated"
        && not (target.owner_organisation_id == p.organisation_id)
    then err forbidden
    else ok (materialise_route rt mdl target)

unfoldable pub resolve_binding : Principal → Model → Store → Result Route
unfolding usable_target
resolve_binding p mdl s =
    elim (find_route s.routes p.organisation_id p.project_id p.environment_id mdl.id) [
      | none ↦ err not_found
      | some rt ↦ if not rt.enabled then err unavailable else elim (get s.targets rt.target_id) [
        | none ↦ err unavailable
        | some target ↦ usable_target p rt mdl target
      ]
    ]

unfoldable pub resolve_route : Principal → String → Store → Result Route
unfolding resolve_binding
resolve_route p alias s = elim (find_model s.models alias) [
  | none ↦ err not_found
  | some mdl ↦ if not mdl.enabled then err not_found else resolve_binding p mdl s
]

-- The record lies in the principal's organisation, project and environment.
unfoldable pub in_scope : Principal → InferenceRequest → Bool
in_scope p r =
    r.organisation_id == p.organisation_id
    && (r.project_id == p.project_id && r.environment_id == p.environment_id)

unfoldable pub get_inference_request : Principal → String → Store → Result InferenceRequest
unfolding in_scope
get_inference_request p request_id s = elim (get s.requests request_id) [
  | none ↦ err not_found
  | some r ↦ if not (in_scope p r) then err not_found else ok r
]

-- What the loop of ListInferenceRequests does not skip.
unfoldable pub is_listed : Principal → UsageFilter → InferenceRequest → Bool
unfolding in_scope
is_listed p filter r =
    in_scope p r
    && (not (not (eqb filter.from 0) && ltb r.started_at filter.from)
        && (not (not (eqb filter.to 0) && not (ltb r.started_at filter.to))
            && not (not (filter.model_alias == "") && not (r.model_alias == filter.model_alias))))

-- items[i].StartedAt.After(items[j].StartedAt)
unfoldable pub is_newer : InferenceRequest → InferenceRequest → Bool
is_newer a b = ltb b.started_at a.started_at

unfoldable pub page_of : ℕ → List InferenceRequest → RequestPage
page_of limit items =
    if ltb 0 limit && ltb limit (length items)
    then record { requests = take limit items; truncated = true }
    else record { requests = items; truncated = false }

unfoldable pub list_inference_requests : Principal → UsageFilter → Store → RequestPage
unfolding is_listed is_newer page_of
list_inference_requests p filter s =
    page_of filter.limit (sort is_newer (keep (is_listed p filter) (values s.requests)))

-- The loop body of ListRoutes: a binding of the scope, with its model and target.
unfoldable pub listed_route : Principal → Store → Binding → Option Route
unfolding materialise_route
listed_route p s rt =
    if not (rt.organisation_id == p.organisation_id)
      || (not (rt.project_id == p.project_id) || not (rt.environment_id == p.environment_id))
    then none
    else elim (get s.models rt.model_id) [
      | none ↦ none
      | some mdl ↦ elim (get s.targets rt.target_id) [
        | none ↦ none
        | some target ↦ some (materialise_route rt mdl target)
      ]
    ]

unfoldable pub collect_routes : Principal → Store → List Binding → List Route
unfolding listed_route
collect_routes p s [] = []
collect_routes p s (rt ∷ rts) =
    let rest = collect_routes p s rts in
    elim (listed_route p s rt) [ none ↦ rest | some route ↦ route ∷ rest ]

unfoldable pub list_routes : Principal → Store → List Route
unfolding collect_routes
list_routes p s =
    sort (λ a b. is_lt (compare a.model_alias b.model_alias)) (collect_routes p s (values s.routes))

unfoldable pub attempts_for_request : String → Store → List ProviderAttempt
attempts_for_request request_id s =
    sort (λ a b. ltb a.attempt_number b.attempt_number)
      (keep (λ a. a.inference_request_id == request_id) (values s.attempts))

-- The loop of RevokeKey: the first entry with the prefix is marked, once.
unfoldable pub revoke_first : String → Time → Dict ApiKey → Option (Dict ApiKey)
revoke_first prefix now [] = none
revoke_first prefix now ((digest, key) ∷ keys) =
    let rest = revoke_first prefix now keys in
    if key.prefix == prefix
    then some (elim key.revoked_at [
      | none ↦ (digest, record key { revoked_at = some now }) ∷ keys
      | some t ↦ (digest, key) ∷ keys
    ])
    else elim rest [ none ↦ none | some keys' ↦ some ((digest, key) ∷ keys') ]

unfoldable pub revoke_key : String → Store → Result (Unit {0}) × Store
unfolding revoke_first
revoke_key prefix s = elim (revoke_first prefix s.now s.keys) [
  | none ↦ (err not_found, s)
  | some keys ↦ (ok tt, record s { keys = keys })
]
