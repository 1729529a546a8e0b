-- ===== src/Endpoints/Accepted.antt =====
-- What reaches the store of endpoints: only what is within the bounds, from those who may ask for it.
use alzette.Shared.{
  ℕ, ◌+◌, ◌≤◌, ◌<◌, String, len, ◌==◌, eq_iff, ◌≡◌, ◌≢◌, ◌⊎◌, inl, inr, refl, Bool, true, false,
  ◌||◌, leb, ltb, eqb, ◌-◌, and_parts, Option, none, some, arith, Bool-cases, Option-cases,
}
use alzette.Shared.Int.{ℤ, pos, negsuc}
use alzette.Platform.{Digest}
use alzette.Platform.Portal.{PortalSession, org_admin, project_admin}
use alzette.Provisioning.Spec.{is_slug, is_alias}
use alzette.Endpoints.{
  EndpointError, Service, authentication_window, can_configure, passed, with_digest, create,
  accept_quote,
}
use alzette.Endpoints.Types.{Workload, CreateInput}
use alzette.Endpoints.Input.{
  idempotency_digest, between, optional_between, is_priority, validate_workload, normalize_create,
  valid_managed, valid_custom, valid_create,
}

-- A number from lo to hi.
abbrev pub Within : ℕ → ℕ → ℤ → Type 0
Within lo hi z = (n : ℕ) × (z ≡ pos n) × (lo ≤ n) × (n ≤ hi)

abbrev pub MaybeWithin : ℕ → ℕ → Option ℤ → Type 0
MaybeWithin lo hi none = Unit
MaybeWithin lo hi (some z) = Within lo hi z

between-Within : (lo hi : ℕ) (z : ℤ) → between lo hi z ≡ true → Within lo hi z
unfolding between
between-Within lo hi (pos n) h = (n, refl, ground (arith, h), ground (arith, h))
between-Within lo hi (negsuc n) h = absurd cc

optional_between-MaybeWithin :
    (lo hi : ℕ) (o : Option ℤ) → optional_between lo hi o ≡ true → MaybeWithin lo hi o
unfolding optional_between
optional_between-MaybeWithin lo hi none h = tt
optional_between-MaybeWithin lo hi (some z) h = between-Within lo hi z h

pub record IsWorkload (w : Workload) : Type 0 where
  pub use_case : len w.use_case ≤ 2000
  pub context : MaybeWithin 1 10000000 w.expected_context_tokens
  pub concurrency : MaybeWithin 1 10000 w.expected_concurrency
  pub per_minute : MaybeWithin 1 10000000 w.expected_requests_per_minute
  pub monthly : MaybeWithin 1 1000000000000 w.expected_monthly_requests
  pub users : MaybeWithin 1 10000 w.expected_user_count
  pub priority : is_priority w.latency_priority ≡ true

validate_workload-IsWorkload : (w : Workload) → validate_workload w ≡ true → IsWorkload w
unfolding validate_workload
validate_workload-IsWorkload w h = record {
  use_case = ground (arith, h);
  context = optional_between-MaybeWithin 1 10000000 w.expected_context_tokens (ground (arith, h));
  concurrency = optional_between-MaybeWithin 1 10000 w.expected_concurrency (ground (arith, h));
  per_minute =
      optional_between-MaybeWithin 1 10000000 w.expected_requests_per_minute (ground (arith, h));
  monthly =
      optional_between-MaybeWithin 1 1000000000000 w.expected_monthly_requests (ground (arith, h));
  users = optional_between-MaybeWithin 1 10000 w.expected_user_count (ground (arith, h));
  priority = ground (arith, h);
}

-- A selection that the operator manages: a mode, and how many people.
pub record IsManaged (i : CreateInput) : Type 0 where
  pub mode : (i.service_mode ≡ "shared") ⊎ (i.service_mode ≡ "dedicated")
  pub offer : i.offer_code ≡ ""
  pub profile : i.profile_code ≡ ""
  pub alias : i.endpoint_alias ≡ ""
  pub units : i.capacity_units ≡ pos 0
  pub users : i.workload.expected_user_count ≢ none

-- An offer of the catalogue, under an alias of the customer's choice.
pub record IsCustom (i : CreateInput) : Type 0 where
  pub mode : i.service_mode ≡ ""
  pub offer : is_slug i.offer_code ≡ true
  pub profile : is_slug i.profile_code ≡ true
  pub alias : is_alias i.endpoint_alias ≡ true
  pub units : Within 1 128 i.capacity_units

pub record IsAccepted (i : CreateInput) : Type 0 where
  pub model : is_slug i.model_slug ≡ true
  pub workload : IsWorkload i.workload
  pub selection : IsManaged i ⊎ IsCustom i

managed_units :
    (z : ℤ) → elim z as (λ _. Bool) [ pos n ↦ leb n 0 | negsuc n ↦ false ] ≡ true → z ≡ pos 0
managed_units (pos n) h = let e : n ≡ 0 = ground (arith, h) in rw (e) refl
managed_units (negsuc n) h = absurd cc

managed_users :
    (o : Option ℤ) → elim o as (λ _. Bool) [ none ↦ false | some n ↦ true ] ≡ true → o ≢ none
managed_users none h = absurd cc
managed_users (some n) h = λ e. cc

valid_managed-IsManaged : (i : CreateInput) → valid_managed i ≡ true → IsManaged i
unfolding valid_managed
valid_managed-IsManaged i h = record {
  mode = ground (arith, h, eq_iff i.service_mode "shared", eq_iff i.service_mode "dedicated");
  offer = ground (arith, h, eq_iff i.offer_code "");
  profile = ground (arith, h, eq_iff i.profile_code "");
  alias = ground (arith, h, eq_iff i.endpoint_alias "");
  units = managed_units i.capacity_units (ground (arith, h));
  users = managed_users i.workload.expected_user_count (ground (arith, h));
}

valid_custom-IsCustom :
    (i : CreateInput) → (i.service_mode == "") ≡ true → valid_custom i ≡ true → IsCustom i
unfolding valid_custom
valid_custom-IsCustom i e h = record {
  mode = (eq_iff i.service_mode "").0 e;
  offer = ground (arith, h);
  profile = ground (arith, h);
  alias = ground (arith, h);
  units = between-Within 1 128 i.capacity_units (ground (arith, h));
}

valid_create-IsAccepted : (i : CreateInput) → valid_create i ≡ true → IsAccepted i
unfolding valid_create
valid_create-IsAccepted i h =
    let (front, choice) = and_parts _ _ h in
    let (model, workload) = and_parts _ _ front in
    record {
      model = model;
      workload = validate_workload-IsWorkload i.workload workload;
      selection = elim (Bool-cases (i.service_mode == "")) [
        | inl y ↦ inr (valid_custom-IsCustom i y (rw (y) at choice))
        | inr n ↦ inl (valid_managed-IsManaged i (rw (n) at choice))
      ];
    }

module _ {S : Type 0} (service : Service S) where
  -- An error, with the store as it was.
  abbrev pub IsRefused {ℓ} : {A : Type ℓ} → S → (EndpointError ⊎ A) × S → Type ℓ
  IsRefused {A = A} s x = ((e : EndpointError) × (x.0 ≡ inl e)) × (x.1 ≡ s)

  with_digest-cases {ℓ} :
      {A : Type ℓ} (key : String) (s : S) (next : Digest → (EndpointError ⊎ A) × S)
      → IsRefused s (with_digest service key s next)
        ⊎ ((digest : Digest) × (idempotency_digest service.sha256 key ≡ some digest)
            × (with_digest service key s next ≡ next digest))
  with_digest-cases key s next = elim (Option-cases (idempotency_digest service.sha256 key)) [
    | inl n ↦ rw (n, with_digest) (inl ((_, refl), refl))
    | inr (digest, d) ↦ inr (digest, d, rw (d, with_digest) refl)
  ]

  -- Create refuses a request and leaves the store as it was; or the person administers the organisation
  -- or the project, and the answer is what the store makes of the input in normal form, which is within
  -- its bounds, under the digest of a valid key.
  pub create-IsAccepted :
      (session : PortalSession) (input : CreateInput) (key : String) (s : S)
      → let x = create service session input key s in
        let normal = normalize_create service.lower input in
        IsRefused s x
        ⊎ (((session.current.role ≡ org_admin) ⊎ (session.current.role ≡ project_admin))
            × IsAccepted normal
            × ((digest : Digest) × (idempotency_digest service.sha256 key ≡ some digest)
                × (x
                    ≡ passed
                        (service.store.create_endpoint_configuration session normal digest s))))
  unfolding create can_configure
  create-IsAccepted session input key s =
      let normal = normalize_create service.lower input in
      let role = session.current.role in
      elim (Bool-cases (role == org_admin || role == project_admin)) [
        | inr n ↦ rw (n, create) (inl ((_, refl), refl))
        | inl y ↦ elim (Bool-cases (valid_create normal)) [
          | inr n ↦ rw (y, n, create) (inl ((_, refl), refl))
          | inl z ↦
              elim (with_digest-cases key s (λ digest.
                passed (service.store.create_endpoint_configuration session normal digest s))) [
                  | inl refused ↦ rw (y, z, create) (inl refused)
                  | inr found ↦
                      rw (y, z, create)
                        (inr (
                          ground (arith, y, eq_iff role org_admin, eq_iff role project_admin),
                          valid_create-IsAccepted normal z,
                          found,
                        ))
                ]
        ]
      ]

  -- The time of the authentication is set, and does not lie more than 15 minutes before now. One that
  -- lies after now fits.
  abbrev pub IsNotOld : PortalSession → Type 0
  IsNotOld session =
      (0 < session.authenticated_at)
      × (service.now ≤ session.authenticated_at + authentication_window)

  -- Why AcceptQuote refuses: the role, no time of the authentication or an old one, the key.
  abbrev pub MayNotAccept : PortalSession → String → Type 0
  MayNotAccept session key =
      (session.current.role ≢ org_admin)
      ⊎ ((session.authenticated_at ≡ 0)
          ⊎ ((session.authenticated_at + authentication_window < service.now)
              ⊎ (idempotency_digest service.sha256 key ≡ none)))

  -- AcceptQuote refuses a request and leaves the store as it was, and then the person does not
  -- administer the organisation, or has no time of authentication or one more than 15 minutes before
  -- now, or the key is not valid. Or the person administers the organisation and has a time of
  -- authentication that is not more than 15 minutes before now (one in the future is let through), and
  -- the answer is the store's, under the digest of the key.
  pub accept_quote-IsRecent :
      (session : PortalSession) (id key : String) (s : S)
      → let x = accept_quote service session id key s in
        (IsRefused s x × MayNotAccept session key)
        ⊎ ((session.current.role ≡ org_admin)
            × IsNotOld session
            × ((digest : Digest) × (idempotency_digest service.sha256 key ≡ some digest)
                × (x
                    ≡ passed
                        (service.store.accept_deployment_quote session id digest service.now s))))
  unfolding accept_quote
  accept_quote-IsRecent session id key s =
      let role = session.current.role in
      let old =
        eqb session.authenticated_at 0
        || ltb authentication_window (service.now - session.authenticated_at) in
      elim (Bool-cases (role == org_admin)) [
        | inr n ↦
            rw (n, accept_quote)
              (inl (((_, refl), refl), inl (ground (arith, n, eq_iff role org_admin))))
        | inl y ↦ elim (Bool-cases old) [
          | inl n ↦ rw (y, n, accept_quote) (inl (((_, refl), refl), inr (ground (arith, n))))
          | inr z ↦ elim (Option-cases (idempotency_digest service.sha256 key)) [
            | inl n ↦
                rw (y, z, n, accept_quote, with_digest)
                  (inl (((_, refl), refl), inr (inr (inr refl))))
            | inr (digest, d) ↦
                rw (y, z, d, accept_quote, with_digest)
                  (inr (
                    (eq_iff role org_admin).0 y,
                    (ground (arith, z), ground (arith, z)),
                    (digest, refl, refl),
                  ))
          ]
        ]
      ]
