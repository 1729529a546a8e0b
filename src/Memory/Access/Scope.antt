-- ===== src/Memory/Access/Scope.antt =====
-- What a principal can reach: its own requests, and routes that its scope owns.
use alzette.Shared.{
  String, ◌==◌, eq_iff, ◌≡◌, ◌≢◌, Bool, true, ◌&&◌, none, some, List, [], ◌∷◌, arith, Option-cases,
  Bool-cases, inl, inr, refl, ◌⊎◌,
}
use alzette.Shared.Dict.{Dict, get, values}
use alzette.Platform.{Result, ok, err, not_found, Principal, Route, InferenceRequest}
use alzette.Memory.Defs.{Store, Binding, Model, find_first, find_model, find_route}
use alzette.Memory.Access.{resolve_route, in_scope, get_inference_request}

pub find_first_holds :
    {A : Type 0} (p : A → Bool) (xs : List A) (x : A) → find_first p xs ≡ some x → p x ≡ true
unfolding find_first
find_first_holds p [] x h = cc
find_first_holds p (y ∷ ys) x h = ground (arith, find_first_holds p ys x)

pub record IsEntitled (p : Principal) (alias : String) (r : Route) : Type 0 where
  pub organisation : r.organisation_id ≡ p.organisation_id
  pub project : r.project_id ≡ p.project_id
  pub environment : r.environment_id ≡ p.environment_id
  pub model : r.model_alias ≡ alias
  pub model_enabled : r.model_enabled ≡ true
  pub enabled : r.enabled ≡ true
  pub target_enabled : r.target.enabled ≡ true
  pub target_healthy : r.target.health_status ≢ "unavailable"
  pub owner :
      r.target.capacity_mode ≡ "dedicated" → r.target.owner_organisation_id ≡ p.organisation_id

pub find_model_alias :
    (m : Dict Model) (alias : String) (x : Model) → find_model m alias ≡ some x → x.alias ≡ alias
unfolding find_model
find_model_alias m alias x h =
    ground
      (arith, find_first_holds (λ (v : Model). v.alias == alias) (values m) x, eq_iff x.alias alias)

pub find_route_fields :
    (m : Dict Binding) (o p e i : String) (x : Binding)
    → find_route m o p e i ≡ some x
    → (x.organisation_id ≡ o) × (x.project_id ≡ p) × (x.environment_id ≡ e) × (x.model_id ≡ i)
unfolding find_route
find_route_fields m o p e i x h = ground (
  arith,
  find_first_holds
      (λ (v : Binding).
        v.organisation_id == o && (v.project_id == p && (v.environment_id == e && v.model_id == i)))
      (values m) x,
  eq_iff x.organisation_id o,
  eq_iff x.project_id p,
  eq_iff x.environment_id e,
  eq_iff x.model_id i,
)

-- A resolved route is one of the principal's own scope for the alias asked for, with its model,
-- itself and its target enabled, a target not marked unavailable, and a dedicated target only if
-- the principal's organisation owns it.
pub resolve_route-IsEntitled :
    (p : Principal) (alias : String) (s : Store) (r : Route)
    → resolve_route p alias s ≡ ok r
    → IsEntitled p alias r
unfolding resolve_route
resolve_route-IsEntitled p alias s r h = elim (Option-cases (find_model s.models alias)) [
  | inl n ↦ cc
  | inr (mdl, e) ↦
      elim (Option-cases
        (find_route s.routes p.organisation_id p.project_id p.environment_id mdl.id)) [
          | inl n ↦ ground arith
          | inr (rt, f) ↦
              let own = find_route_fields s.routes _ _ _ _ rt f in
              let named = find_model_alias s.models alias mdl e in
              elim (Option-cases (get s.targets rt.target_id)) [
                | inl n ↦ ground arith
                | inr (t, g) ↦ ground (
                  arith,
                  eq_iff t.capacity_mode "dedicated",
                  eq_iff t.health_status "unavailable",
                  eq_iff t.owner_organisation_id p.organisation_id,
                )
              ]
        ]
]

-- The record of a request that is there, read by a principal of its own scope.
abbrev pub IsOwnRequest : Principal → String → Store → Result InferenceRequest → Type 0
IsOwnRequest p i s x =
    (r : InferenceRequest) × (get s.requests i ≡ some r)
    × (r.organisation_id ≡ p.organisation_id)
    × (r.project_id ≡ p.project_id)
    × (r.environment_id ≡ p.environment_id)
    × (x ≡ ok r)

-- A request that is there and lies outside the principal's scope.
abbrev pub IsForeign : Principal → String → Store → Type 0
IsForeign p i s =
    (r : InferenceRequest) × (get s.requests i ≡ some r)
    × ((r.organisation_id ≢ p.organisation_id)
        ⊎ ((r.project_id ≢ p.project_id) ⊎ (r.environment_id ≢ p.environment_id)))

-- A request that is there is read by the principals of its own organisation, project and environment,
-- and the answer is its record. A request that is missing and one that is there in another scope
-- give the same answer, "not found", so that no principal can tell them apart.
pub get_inference_request_scope :
    (p : Principal) (i : String) (s : Store)
    → IsOwnRequest p i s (get_inference_request p i s)
      ⊎ (((get s.requests i ≡ none) ⊎ IsForeign p i s)
          × (get_inference_request p i s ≡ err not_found))
unfolding get_inference_request in_scope
get_inference_request_scope p i s = elim (Option-cases (get s.requests i)) [
  | inl missing ↦ inr (inl missing, rw (missing, get_inference_request) refl)
  | inr (r, found) ↦ elim (Bool-cases (in_scope p r)) [
    | inl own ↦ inl (
      r,
      found,
      ground (arith, own, eq_iff r.organisation_id p.organisation_id),
      ground (arith, own, eq_iff r.project_id p.project_id),
      ground (arith, own, eq_iff r.environment_id p.environment_id),
      rw (found, own, get_inference_request) refl,
    )
    | inr foreign ↦ inr (
      inr (
        r,
        found,
        ground (
          arith,
          foreign,
          eq_iff r.organisation_id p.organisation_id,
          eq_iff r.project_id p.project_id,
          eq_iff r.environment_id p.environment_id,
        ),
      ),
      rw (found, foreign, get_inference_request) refl,
    )
  ]
]
