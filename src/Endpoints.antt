-- ===== src/Endpoints.antt =====
-- internal/endpoints/endpoints.go: the service over the store of endpoints. The store, the clock, the
-- hash and strings.ToLower are parameters.
pub mod Types
pub mod Input
pub mod Accepted
use alzette.Shared.{
  ℕ, ◌-◌, ◌*◌, String, ◌==◌, Bool, true, false, ◌||◌, not, Option, none, some, List, ltb, leb, eqb,
  ◌⊎◌, inl, inr, if◌then◌else◌,
}
use alzette.Shared.Int.{ℤ, pos, negsuc}
use alzette.Platform.{
  Time, Digest, Result, ok, err, Error, forbidden, invalid, not_found, unavailable,
}
use alzette.Platform.Portal.{PortalSession, PortalMembership, org_admin, project_admin}
use Types.{
  Workload, Configuration, Endpoint, DeploymentRequest, Quote, CreateInput, PatchInput,
  AcceptResult,
}
use Input.{
  idempotency_digest, valid_id, between, normalize_workload, validate_workload, normalize_create,
  valid_create, valid_patch,
}

-- platform's errors, and ErrRecentAuthenticationRequired.
pub data EndpointError : Type 0 where
  stored : Error → EndpointError
  recent_authentication_required : EndpointError

-- Store, with ConfigurationReader if the store has it.
pub record EndpointStore (S : Type 0) : Type 0 where
  pub list_customer_endpoints : PortalSession → S → Result (List Endpoint)
  pub get_customer_endpoint : PortalSession → String → S → Result Endpoint
  pub create_endpoint_configuration :
      PortalSession → CreateInput → Digest → S → Result Configuration × S
  pub update_endpoint_configuration :
      PortalSession → String → PatchInput → S → Result Configuration × S
  pub submit_endpoint_configuration :
      PortalSession → String → Digest → Time → S → Result Endpoint × S
  pub get_deployment_request : PortalSession → String → S → Result DeploymentRequest
  pub get_deployment_quote : PortalSession → String → S → Result Quote
  pub accept_deployment_quote : PortalSession → String → Digest → Time → S → Result AcceptResult × S
  pub create_capacity_request :
      PortalSession → String → ℤ → Workload → Digest → Time → S → Result DeploymentRequest × S
  pub get_endpoint_configuration : Option (PortalSession → String → S → Result Configuration)

pub record Service (S : Type 0) : Type 0 where
  pub store : EndpointStore S
  pub now : Time
  pub sha256 : String → Digest
  pub lower : String → String

abbrev pub authentication_window : ℕ
authentication_window = 15 * 60 * 1000000000

unfoldable pub can_configure : PortalMembership → Bool
can_configure membership = membership.role == org_admin || membership.role == project_admin

-- The store's answer, and its errors as they are.
abbrev pub passed {ℓ} : {S : Type 0} {A : Type ℓ} → Result A × S → (EndpointError ⊎ A) × S
passed (ok a, s) = (inr a, s)
passed (err e, s) = (inl (stored e), s)

abbrev pub refuse {ℓ} : {S : Type 0} {A : Type ℓ} → EndpointError → S → (EndpointError ⊎ A) × S
refuse e s = (inl e, s)

module _ {S : Type 0} (service : Service S) where
  abbrev pub Answer {ℓ} : Type ℓ → Type ℓ
  Answer A = (EndpointError ⊎ A) × S

  -- `next` gets the digest of the key.
  abbrev pub with_digest {ℓ} : {A : Type ℓ} → String → S → (Digest → Answer A) → Answer A
  with_digest key s next = elim (idempotency_digest service.sha256 key) [
    | none ↦ refuse (stored invalid) s
    | some digest ↦ next digest
  ]

  abbrev pub read {ℓ} : {A : Type ℓ} → Result A → S → Answer A
  read r s = passed (r, s)

  unfoldable pub list : PortalSession → S → Answer (List Endpoint)
  list session s = read (service.store.list_customer_endpoints session s) s

  unfoldable pub get : PortalSession → String → S → Answer Endpoint
  unfolding valid_id
  get session id s =
      if not (valid_id id)
      then refuse (stored not_found) s
      else read (service.store.get_customer_endpoint session id s) s

  unfoldable pub configuration : PortalSession → String → S → Answer Configuration
  unfolding valid_id
  configuration session id s =
      if not (valid_id id)
      then refuse (stored not_found) s
      else elim service.store.get_endpoint_configuration [
        | none ↦ refuse (stored unavailable) s
        | some reader ↦ read (reader session id s) s
      ]

  unfoldable pub create : PortalSession → CreateInput → String → S → Answer Configuration
  unfolding can_configure normalize_create valid_create idempotency_digest
  create session input key s =
      let normal = normalize_create service.lower input in
      if not (can_configure session.current)
      then refuse (stored forbidden) s
      else if not (valid_create normal)
      then refuse (stored invalid) s
      else with_digest key s
          (λ digest. passed (service.store.create_endpoint_configuration session normal digest s))

  unfoldable pub update : PortalSession → String → PatchInput → String → S → Answer Configuration
  unfolding can_configure valid_id idempotency_digest normalize_workload valid_patch
  update session id input key s =
      let normal : PatchInput = record input {
        workload = elim input.workload [
          | none ↦ none
          | some w ↦ some (normalize_workload service.lower w)
        ];
      } in
      if not (can_configure session.current) || not (valid_id id)
      then refuse (stored forbidden) s
      else with_digest key s (λ digest.
        if not (valid_patch normal)
        then refuse (stored invalid) s
        else passed (service.store.update_endpoint_configuration session id normal s))

  unfoldable pub submit : PortalSession → String → String → S → Answer Endpoint
  unfolding can_configure valid_id idempotency_digest
  submit session id key s =
      if not (can_configure session.current) || not (valid_id id)
      then refuse (stored forbidden) s
      else with_digest key s (λ digest.
        passed (service.store.submit_endpoint_configuration session id digest service.now s))

  unfoldable pub request : PortalSession → String → S → Answer DeploymentRequest
  unfolding valid_id
  request session id s =
      if not (valid_id id)
      then refuse (stored not_found) s
      else read (service.store.get_deployment_request session id s) s

  unfoldable pub quote : PortalSession → String → S → Answer Quote
  unfolding valid_id
  quote session id s =
      if not (valid_id id)
      then refuse (stored not_found) s
      else read (service.store.get_deployment_quote session id s) s

  unfoldable pub accept_quote : PortalSession → String → String → S → Answer AcceptResult
  unfolding idempotency_digest
  accept_quote session id key s =
      if not (session.current.role == org_admin)
      then refuse (stored forbidden) s
      else if eqb session.authenticated_at 0
          || ltb authentication_window (service.now - session.authenticated_at)
      then refuse recent_authentication_required s
      else with_digest key s
          (λ digest. passed (service.store.accept_deployment_quote session id digest service.now s))

  unfoldable pub capacity :
      PortalSession → String → ℤ → Workload → String → S → Answer DeploymentRequest
  unfolding normalize_workload valid_id validate_workload idempotency_digest
  capacity session endpoint_id units workload key s =
      let normal = normalize_workload service.lower workload in
      let counts_users : Bool = elim normal.expected_user_count [ none ↦ false | some n ↦ true ] in
      if not (session.current.role == org_admin)
      then refuse (stored forbidden) s
      else if counts_users
          || (not (valid_id endpoint_id)
              || (not (between 1 128 units) || not (validate_workload normal)))
      then refuse (stored invalid) s
      else with_digest key s (λ digest. passed (
          service.store.create_capacity_request session endpoint_id units normal digest service.now
            s))
