-- ===== src/Memory/Provision/Settings.antt =====
-- The steps of Provision of store.go up to the target.
use alzette.Shared.{
  String, ◌==◌, eq_iff, ◌≡◌, refl, true, Option, none, some, eqb_iff, arith, inl, inr, Bool-cases,
  Option-cases,
}
use alzette.Shared.Dict.{Dict, get}
use alzette.Platform.{Time, Target}
use alzette.Provisioning.Spec.{ProvisionSpec}
use alzette.Memory.Defs.{Store, Organisation, Project, Model, find_model, find_target}
use alzette.Memory.Access.Scope.{find_first_holds, find_model_alias}
use alzette.Memory.Provision.{
  ensure_organisation, ensure_project, ensure_environment, ensure_model, ensure_target,
  is_same_target, configured_target,
}
use alzette.Memory.Provision.Gives.{Gives, Same, stored, IsConfigured, IsTarget, IsModel}

module _ (new_id : String → Option String) where
  pub ensure_organisation-Gives :
      (spec : ProvisionSpec) (s : Store)
      → Gives (λ org t. Same s t) (ensure_organisation new_id spec s)
  unfolding ensure_organisation
  ensure_organisation-Gives spec s = ground arith

  configured_target-IsConfigured :
      (spec : ProvisionSpec) (org : Organisation) (i h : String) (c l : Option Time)
      → IsConfigured spec org.id (configured_target spec org i h c l)
  unfolding configured_target
  configured_target-IsConfigured spec org i h c l = record {
    name = refl;
    execution_class = refl;
    capacity_mode = refl;
    evidence = refl;
    owner = ground (arith, eq_iff spec.capacity_mode "dedicated");
    base_url = refl;
    provider_model = refl;
    secret_ref = refl;
    timeout = refl;
    max_attempts = refl;
  }

  same-IsConfigured :
      (spec : ProvisionSpec) (org : Organisation) (x : Target)
      → x.name ≡ spec.target_name
      → is_same_target spec org x ≡ true
      → IsConfigured spec org.id x
  unfolding is_same_target
  same-IsConfigured spec org x n h = record {
    name = n;
    execution_class = ground (arith, h, eq_iff x.execution_class spec.execution_class);
    capacity_mode = ground (arith, h, eq_iff x.capacity_mode spec.capacity_mode);
    evidence = ground (arith, h, eq_iff x.capacity_evidence_ref spec.capacity_evidence_ref);
    owner = ground (
      arith,
      h,
      eq_iff spec.capacity_mode "dedicated",
      eq_iff x.owner_organisation_id org.id,
      eq_iff x.owner_organisation_id "",
    );
    base_url = ground (arith, h, eq_iff x.base_url spec.target_base_url);
    provider_model = ground (arith, h, eq_iff x.provider_model spec.provider_model);
    secret_ref = ground (arith, h, eq_iff x.secret_ref spec.secret_ref);
    timeout = ground (arith, h, eqb_iff x.timeout spec.target_timeout);
    max_attempts = ground (arith, h, eqb_iff x.max_attempts spec.max_attempts);
  }

  pub ensure_project-Gives :
      (spec : ProvisionSpec) (org : Organisation) (s : Store)
      → Gives (λ proj t. Same s t) (ensure_project new_id spec org s)
  unfolding ensure_project
  ensure_project-Gives spec org s = ground arith

  pub ensure_environment-Gives :
      (spec : ProvisionSpec) (org : Organisation) (proj : Project) (s : Store)
      → Gives (λ env t. Same s t) (ensure_environment new_id spec org proj s)
  unfolding ensure_environment
  ensure_environment-Gives spec org proj s = ground arith

  -- The model, its table, and the tables that are as they were.
  abbrev pub GivesModel : ProvisionSpec → Store → Model → Store → Type 0
  GivesModel spec s m t =
      (get t.models m.id ≡ some m)
      × IsModel spec m
      × (t.targets ≡ s.targets)
      × (t.routes ≡ s.routes)
      × (t.keys ≡ s.keys)

  pub ensure_model-Gives :
      (spec : ProvisionSpec) (s : Store) → Gives (GivesModel spec s) (ensure_model new_id spec s)
  unfolding ensure_model
  ensure_model-Gives spec s = elim (Option-cases (find_model s.models spec.model_alias)) [
    | inr (m, y) ↦ elim (Bool-cases (m.version == spec.model_version)) [
      | inr n ↦ rw (y, n, ensure_model) tt
      | inl same ↦
          rw (y, same, ensure_model)
            (
              stored s.models m.id _,
              (
                find_model_alias s.models spec.model_alias m y,
                (eq_iff m.version spec.model_version).0 same,
                refl,
              ),
              refl,
              refl,
              refl,
            )
    ]
    | inl n ↦ elim (Option-cases (new_id "mdl")) [
      | inl none_drawn ↦ rw (n, none_drawn, ensure_model) tt
      | inr (i, d) ↦
          rw (n, d, ensure_model) (stored s.models i _, (refl, refl, refl), refl, refl, refl)
    ]
  ]

  abbrev pub GivesTarget : ProvisionSpec → Organisation → Store → Target → Store → Type 0
  GivesTarget spec org s x t =
      (get t.targets x.id ≡ some x)
      × IsTarget s.targets spec org.id x
      × (t.models ≡ s.models)
      × (t.routes ≡ s.routes)
      × (t.keys ≡ s.keys)

  found_name :
      (m : Dict Target) (name : String) (x : Target) → find_target m name ≡ some x → x.name ≡ name
  unfolding find_target
  found_name m name x h =
      ground (arith, find_first_holds (λ (v : Target). v.name == name) _ x h, eq_iff x.name name)

  pub ensure_target-Gives :
      (spec : ProvisionSpec) (org : Organisation) (s : Store)
      → Gives (GivesTarget spec org s) (ensure_target new_id spec org s)
  unfolding ensure_target
  ensure_target-Gives spec org s = elim (Option-cases (find_target s.targets spec.target_name)) [
    | inr (old, y) ↦ elim (Bool-cases (is_same_target spec org old)) [
      | inr n ↦ rw (y, n, ensure_target) tt
      | inl same ↦
          rw (y, same, ensure_target)
            (
              stored s.targets old.id _,
              (
                configured_target-IsConfigured spec org old.id old.health_status
                    old.last_health_check_at old.last_success_at,
                refl,
                inr (
                  old,
                  refl,
                  same-IsConfigured spec org old (found_name s.targets spec.target_name old y) same,
                  refl,
                ),
              ),
              refl,
              refl,
              refl,
            )
    ]
    | inl n ↦ elim (Option-cases (new_id "tgt")) [
      | inl none_drawn ↦ rw (n, none_drawn, ensure_target) tt
      | inr (i, d) ↦
          rw (n, d, ensure_target)
            (
              stored s.targets i _,
              (configured_target-IsConfigured spec org i "" none none, refl, inl refl),
              refl,
              refl,
              refl,
            )
    ]
  ]
