-- ===== src/Memory/Provision/Routing.antt =====
-- The steps of Provision of store.go from the route on.
use alzette.Shared.{
  suc, String, ◌==◌, eq_iff, ◌≡◌, refl, true, false, not, ◌&&◌, Option, some, arith, inl, inr,
  Bool-cases, Option-cases,
}
use alzette.Shared.Dict.{get}
use alzette.Platform.{Target}
use alzette.Credentials.{Key}
use alzette.Provisioning.Spec.{ProvisionSpec}
use alzette.Memory.Defs.{
  active_key_for_account, Store, Organisation, Project, Environment, Model, ServiceAccount, Binding,
  find_route,
}
use alzette.Memory.Access.Scope.{find_route_fields}
use alzette.Memory.Provision.{
  ProvisionResult, write_route, ensure_route, ensure_account, ensure_key,
}
use alzette.Memory.Provision.Keys.{add_key}
use alzette.Memory.Provision.Gives.{IsKeyed, Gives, Same, stored, IsRoute}

module _ (new_id : String → Option String) where
  abbrev pub GivesRoute :
      Organisation → Project → Environment → Model → Target → Store → Binding → Store → Type 0
  GivesRoute org proj env mdl target s b t =
      (get t.routes b.id ≡ some b)
      × IsRoute s.routes org.id proj.id env.id mdl.id target.id b
      × (t.models ≡ s.models)
      × (t.targets ≡ s.targets)
      × (t.keys ≡ s.keys)

  -- A route as it is written for a target.
  abbrev pub pointed : Target → Store → Binding → Binding
  pointed target s rt = record rt { target_id = target.id; enabled = true; updated_at = s.now }

  write_route-Gives :
      (org : Organisation) (proj : Project) (env : Environment) (mdl : Model) (target : Target)
      (s : Store) (rt : Binding)
      → IsRoute s.routes org.id proj.id env.id mdl.id target.id (pointed target s rt)
      → Gives (GivesRoute org proj env mdl target s) (write_route org target rt s)
  unfolding write_route
  write_route-Gives org proj env mdl target s rt h =
      elim (Bool-cases
        (target.capacity_mode == "dedicated" && not (target.owner_organisation_id == org.id))) [
          | inl refused ↦ rw (refused, write_route) tt
          | inr n ↦
              rw (n, write_route) (stored s.routes rt.id (pointed target s rt), h, refl, refl, refl)
        ]

  pub ensure_route-Gives :
      (org : Organisation) (proj : Project) (env : Environment) (mdl : Model) (target : Target)
      (s : Store)
      → Gives (GivesRoute org proj env mdl target s) (ensure_route new_id org proj env mdl target s)
  unfolding ensure_route
  ensure_route-Gives org proj env mdl target s =
      elim (Option-cases (find_route s.routes org.id proj.id env.id mdl.id)) [
        | inr (rt, y) ↦
            let (o, p, e, m) = find_route_fields s.routes org.id proj.id env.id mdl.id rt y in
            let moved : Binding = record rt { binding_generation = suc rt.binding_generation } in
            elim (Bool-cases (rt.target_id == target.id)) [
              | inl same ↦
                  rw (y, same, ensure_route)
                    (write_route-Gives org proj env mdl target s rt (record {
                      organisation = o;
                      project = p;
                      environment = e;
                      model = m;
                      target = refl;
                      enabled = refl;
                      generation =
                          rw (y) (refl, inl ((eq_iff rt.target_id target.id).0 same, refl));
                    }))
              | inr other ↦
                  rw (y, other, ensure_route)
                    (write_route-Gives org proj env mdl target s moved (record {
                      organisation = o;
                      project = p;
                      environment = e;
                      model = m;
                      target = refl;
                      enabled = refl;
                      generation =
                          rw (y) (
                            refl,
                            inr (ground (arith, other, eq_iff rt.target_id target.id), refl),
                          );
                    }))
            ]
        | inl n ↦ elim (Option-cases (new_id "rte")) [
          | inl none_drawn ↦ rw (n, none_drawn, ensure_route) tt
          | inr (i, d) ↦
              rw (n, d, ensure_route)
                (write_route-Gives org proj env mdl target s
                  (record {
                    id = i;
                    organisation_id = org.id;
                    project_id = proj.id;
                    environment_id = env.id;
                    model_id = mdl.id;
                    target_id = "";
                    binding_generation = 1;
                    enabled = false;
                    created_at = s.now;
                    updated_at = 0;
                  })
                  (record {
                    organisation = refl;
                    project = refl;
                    environment = refl;
                    model = refl;
                    target = refl;
                    enabled = refl;
                    generation = rw (n) refl;
                  }))
        ]
      ]

  pub ensure_account-Gives :
      (spec : ProvisionSpec) (org : Organisation) (proj : Project) (env : Environment) (s : Store)
      → Gives (λ account t. Same s t) (ensure_account new_id spec org proj env s)
  unfolding ensure_account
  ensure_account-Gives spec org proj env s = ground arith

  -- The identifiers of the result are those that the key was made for.
  abbrev pub GivesResult :
      Option Key → ProvisionSpec → ProvisionResult → Store → ProvisionResult → Store → Type 0
  GivesResult generated spec given s r t =
      ((t.models ≡ s.models) × (t.targets ≡ s.targets) × (t.routes ≡ s.routes))
      × IsKeyed s.keys generated spec r t.keys
      × (r.organisation_id ≡ given.organisation_id)
      × (r.project_id ≡ given.project_id)
      × (r.environment_id ≡ given.environment_id)
      × (r.route_id ≡ given.route_id)
      × (r.target_id ≡ given.target_id)

  pub ensure_key-Gives :
      (generated : Option Key) (spec : ProvisionSpec) (account : ServiceAccount)
      (given : ProvisionResult) (s : Store)
      → given.service_account_id ≡ account.id
      → given.key_created ≡ false
      → given.api_key ≡ ""
      → Gives
          (GivesResult generated spec given s)
          (ensure_key new_id generated spec account given s)
  unfolding ensure_key add_key
  ensure_key-Gives generated spec account given s own no_key no_token =
      elim (Option-cases (active_key_for_account s.keys account.id)) [
        | inr (old, y) ↦
            rw (y, ensure_key)
              (
                (refl, refl, refl),
                inl (old, rw (own) y, refl, no_key, no_token, refl, refl),
                refl,
                refl,
                refl,
                refl,
                refl,
              )
        | inl n ↦ elim (Option-cases generated) [
          | inl m ↦ rw (n, m, ensure_key, add_key) tt
          | inr (key, m) ↦ elim (Option-cases (new_id "key")) [
            | inl none_drawn ↦ rw (n, m, none_drawn, ensure_key, add_key) tt
            | inr (i, d) ↦
                rw (n, m, d, ensure_key, add_key)
                  (
                    (refl, refl, refl),
                    inr (
                      key,
                      refl,
                      rw (own) n,
                      refl,
                      refl,
                      refl,
                      (_, stored s.keys key.digest _, rw (own) refl, refl, refl),
                    ),
                    refl,
                    refl,
                    refl,
                    refl,
                    refl,
                  )
          ]
        ]
      ]
