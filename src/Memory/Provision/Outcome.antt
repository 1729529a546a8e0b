-- ===== src/Memory/Provision/Outcome.antt =====
-- What Provision of store.go leaves if it succeeds: the model, the target and the route.
use alzette.Shared.{refl, String, ◌≡◌, ◌∙◌, true, false, Option, some, inl, inr}
use alzette.Shared.Dict.{get}
use alzette.Platform.{Result, Result-cases, ok, err_ne_ok, Target}
use alzette.Credentials.{Key}
use alzette.Provisioning.{validate_spec}
use alzette.Provisioning.Spec.{ProvisionSpec, Url}
use alzette.Memory.Defs.{Store, Organisation, Project, Environment, Model, ServiceAccount, Binding}
use alzette.Memory.Provision.{
  ProvisionResult, ensure_organisation, ensure_project, ensure_environment, ensure_model,
  ensure_target, ensure_route, ensure_account, ensure_key, provision_valid, provision,
}
use alzette.Memory.Provision.Gives.{
  IsKeyed, Gives, next-Gives, Gives-map, Same, Same-trans, IsTarget, IsModel, IsRoute,
}
use alzette.Memory.Provision.Settings.{
  GivesModel, GivesTarget, ensure_organisation-Gives, ensure_project-Gives,
  ensure_environment-Gives, ensure_model-Gives, ensure_target-Gives,
}
use alzette.Memory.Provision.Routing.{
  GivesRoute, GivesResult, ensure_route-Gives, ensure_account-Gives, ensure_key-Gives,
}

-- What a successful Provision leaves: from the store `s` and the specification to the store `t` and
-- the result.
pub record IsProvisioned (s : Store) (generated : Option Key) (spec : ProvisionSpec)
    (r : ProvisionResult) (t : Store) : Type 0 where
  pub model : Model
  pub model_stored : get t.models model.id ≡ some model
  pub model_fits : IsModel spec model
  pub target : Target
  pub target_stored : get t.targets r.target_id ≡ some target
  pub target_fits : IsTarget s.targets spec r.organisation_id target
  pub route : Binding
  pub route_stored : get t.routes r.route_id ≡ some route
  pub route_fits :
      IsRoute s.routes r.organisation_id r.project_id r.environment_id model.id r.target_id route
  pub key_fits : IsKeyed s.keys generated spec r t.keys

module _ (new_id : String → Option String) where
  abbrev given_result :
      ProvisionSpec
      → Organisation
      → Project
      → Environment
      → Binding
      → Target
      → ServiceAccount
      → ProvisionResult
  given_result spec org proj env rt target account = record {
    organisation_id = org.id;
    project_id = proj.id;
    environment_id = env.id;
    route_id = rt.id;
    target_id = target.id;
    service_account_id = account.id;
    key_prefix = "";
    api_key = "";
    key_created = false;
    scopes = spec.scopes;
  }

  -- The steps one after the other.
  provisioned :
      (generated : Option Key) (spec : ProvisionSpec) (org : Organisation) (proj : Project)
      (env : Environment) (mdl : Model) (target : Target) (rt : Binding) (account : ServiceAccount)
      (s s3 s4 s5 s6 s7 t : Store) (r : ProvisionResult)
      → Same s s3
      → GivesModel new_id spec s3 mdl s4
      → GivesTarget new_id spec org s4 target s5
      → GivesRoute new_id org proj env mdl target s5 rt s6
      → Same s6 s7
      → GivesResult new_id generated spec (given_result spec org proj env rt target account) s7 r t
      → IsProvisioned s generated spec r t
  provisioned generated spec org proj env mdl target rt account s s3 s4 s5 s6 s7 t r a b c d e f =
      let ((k_models, k_targets, k_routes), keyed, o, p, v, i, j) = f in
      let (m_stored, m_fits, m_targets, m_routes, m_keys) = b in
      let (t_stored, t_fits, t_models, t_routes, t_keys) = c in
      let (r_stored, r_fits, r_models, r_targets, r_keys) = d in
      let models : t.models ≡ s4.models = k_models ∙ e.models ∙ r_models ∙ t_models in
      let targets : t.targets ≡ s5.targets = k_targets ∙ e.targets ∙ r_targets in
      let routes : t.routes ≡ s6.routes = k_routes ∙ e.routes in
      let old_keys : s7.keys ≡ s.keys = e.keys ∙ r_keys ∙ t_keys ∙ m_keys ∙ a.keys in
      let old_targets : s4.targets ≡ s.targets = m_targets ∙ a.targets in
      let old_routes : s5.routes ≡ s.routes = t_routes ∙ m_routes ∙ a.routes in
      record {
        model = mdl;
        model_stored = rw (models) m_stored;
        model_fits = m_fits;
        target = target;
        target_stored = rw (targets, j) t_stored;
        target_fits = rw (o) (rw (old_targets) at t_fits);
        route = rt;
        route_stored = rw (routes, i) r_stored;
        route_fits = rw (o, p, v, j) (rw (old_routes) at r_fits);
        key_fits = rw (old_keys) at keyed;
      }

  provision_valid-Gives :
      (generated : Option Key) (spec : ProvisionSpec) (s : Store)
      → Gives (IsProvisioned s generated spec) (provision_valid new_id generated spec s)
  unfolding provision_valid
  provision_valid-Gives generated spec s =
      let Q : ProvisionResult → Store → Type 0 = IsProvisioned s generated spec in
      next-Gives (λ a t. Same s t) Q (ensure_organisation new_id spec s) _
        (ensure_organisation-Gives new_id spec s)
        (λ org s1 b1.
          next-Gives (λ a t. Same s1 t) Q (ensure_project new_id spec org s1) _
            (ensure_project-Gives new_id spec org s1)
            (λ proj s2 b2.
              next-Gives (λ a t. Same s2 t) Q (ensure_environment new_id spec org proj s2) _
                (ensure_environment-Gives new_id spec org proj s2)
                (λ env s3 b3.
                  let same = Same-trans s s2 s3 (Same-trans s s1 s2 b1 b2) b3 in
                  next-Gives (GivesModel new_id spec s3) Q (ensure_model new_id spec s3) _
                    (ensure_model-Gives new_id spec s3)
                    (λ mdl s4 c.
                      next-Gives (GivesTarget new_id spec org s4) Q
                        (ensure_target new_id spec org s4) _
                        (ensure_target-Gives new_id spec org s4)
                        (λ target s5 d.
                          next-Gives (GivesRoute new_id org proj env mdl target s5) Q
                            (ensure_route new_id org proj env mdl target s5) _
                            (ensure_route-Gives new_id org proj env mdl target s5)
                            (λ rt s6 e.
                              next-Gives (λ a t. Same s6 t) Q
                                (ensure_account new_id spec org proj env s6) _
                                (ensure_account-Gives new_id spec org proj env s6)
                                (λ account s7 f.
                                  let given = given_result spec org proj env rt target account in
                                  Gives-map (GivesResult new_id generated spec given s7) Q
                                    (ensure_key new_id generated spec account given s7)
                                    (λ r t g.
                                      provisioned generated spec org proj env mdl target rt account
                                        s s3 s4 s5 s6 s7 t r same c d e f g)
                                    (ensure_key-Gives new_id generated spec account given s7 refl
                                      refl refl))))))))

  -- If Provision succeeds, the specification was valid, and the store that it leaves has: an
  -- enabled model of the specified alias and version; under the result's identifier an enabled
  -- target with the specified configuration, owned by the result's organisation if it is dedicated
  -- and by nobody else, and if there was a target of that name before, it is the same one and had
  -- this configuration already; and under the result's identifier an enabled route from the
  -- result's organisation, project and environment and that model to that target. A route that is
  -- new has generation 1; one that was there keeps its identifier, and has its old generation if it
  -- led to this target, and the next one if it led to another. If the result's service account had
  -- an active key, the keys are as they were, and the result has that key's prefix and scopes and
  -- no token; else the generated key is stored under its digest as an active key of that account
  -- with the specified scopes, and the result has its prefix and token.
  pub provision-IsProvisioned :
      (parse_url : String → Option Url) (generated : Option Key) (input : ProvisionSpec) (s : Store)
      (r : ProvisionResult)
      → (provision new_id parse_url generated input s).0 ≡ ok r
      → (spec : ProvisionSpec) × (validate_spec parse_url true input ≡ ok spec)
        × IsProvisioned s generated spec r (provision new_id parse_url generated input s).1
  unfolding provision
  provision-IsProvisioned parse_url generated input s r h =
      elim (Result-cases (validate_spec parse_url true input)) [
        | inr (e, y) ↦ absurd (err_ne_ok r e (rw (y, provision) at h))
        | inl (spec, y) ↦ (
          spec,
          y,
          rw (y, provision)
              (taken spec (provision_valid new_id generated spec s)
                (provision_valid-Gives generated spec s) (rw (y, provision) at h)),
        )
      ]
    where
      taken :
          (spec : ProvisionSpec) (x : Result ProvisionResult × Store)
          → Gives (IsProvisioned s generated spec) x
          → x.0 ≡ ok r
          → IsProvisioned s generated spec r x.1
      taken spec x g e = rw (e) at g
