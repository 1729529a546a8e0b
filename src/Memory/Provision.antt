-- ===== src/Memory/Provision.antt =====
-- Provision of store.go. A call that fails leaves what it has written so far. Each
-- prefix is drawn at most once in a call: `new_id` gives the identifier that is drawn for it, and
-- `generated` is what credentials.Generate returns.
pub mod Gives
pub mod Settings
pub mod Routing
pub mod Outcome
pub mod Rotation
pub mod Keys
use alzette.Shared.{
  ℕ, suc, String, ◌==◌, Bool, true, false, ◌&&◌, not, Option, none, some, List, [], ◌∷◌, eqb,
  if◌then◌else◌,
}
use alzette.Shared.Dict.{Dict, put}
use alzette.Platform.{Time, Digest, Result, ok, err, Error, not_found, conflict, other, Target}
use alzette.Credentials.{Key}
use alzette.Provisioning.{validate_spec, validate_rotate}
use alzette.Provisioning.Spec.{ProvisionSpec, RotateKeySpec, Url}
use alzette.Memory.Defs.{
  Store, Organisation, Project, Environment, Model, ServiceAccount, ApiKey, Binding,
  find_organisation, find_project, find_environment, find_model, find_target, find_route,
  find_service_account, active_key_for_account,
}
use Keys.{next, add_key}

pub record ProvisionResult : Type 0 where
  pub organisation_id : String
  pub project_id : String
  pub environment_id : String
  pub route_id : String
  pub target_id : String
  pub service_account_id : String
  pub key_prefix : String
  pub api_key : String
  pub key_created : Bool
  pub scopes : List String

abbrev pub owner_of : ProvisionSpec → Organisation → String
owner_of spec org = if spec.capacity_mode == "dedicated" then org.id else ""

-- The existing target is configured as specified.
unfoldable pub is_same_target : ProvisionSpec → Organisation → Target → Bool
is_same_target spec org t =
    t.execution_class == spec.execution_class
    && (t.capacity_mode == spec.capacity_mode
        && (t.capacity_evidence_ref == spec.capacity_evidence_ref
            && (t.owner_organisation_id == owner_of spec org
                && (t.base_url == spec.target_base_url
                    && (t.provider_model == spec.provider_model
                        && (t.secret_ref == spec.secret_ref
                            && (eqb t.timeout spec.target_timeout
                                && eqb t.max_attempts spec.max_attempts)))))))

-- The assignments to the target; the identifier, the health and its times are the given ones.
unfoldable pub configured_target :
    ProvisionSpec → Organisation → String → String → Option Time → Option Time → Target
configured_target spec org id health checked success = record {
  id = id;
  name = spec.target_name;
  execution_class = spec.execution_class;
  capacity_mode = spec.capacity_mode;
  capacity_evidence_ref = spec.capacity_evidence_ref;
  owner_organisation_id = owner_of spec org;
  base_url = spec.target_base_url;
  provider_model = spec.provider_model;
  secret_ref = spec.secret_ref;
  timeout = spec.target_timeout;
  max_attempts = spec.max_attempts;
  enabled = true;
  health_status = if health == "" then "unknown" else health;
  last_health_check_at = checked;
  last_success_at = success;
}

-- The route is written, unless a dedicated target has another owner.
unfoldable pub write_route : Organisation → Target → Binding → Store → Result Binding × Store
write_route org target rt s =
    if target.capacity_mode == "dedicated" && not (target.owner_organisation_id == org.id)
    then (err conflict, s)
    else (let written : Binding = record rt {
      target_id = target.id;
      enabled = true;
      updated_at = s.now;
    } in
        (ok written, record s { routes = put s.routes rt.id written }))

module _ (new_id : String → Option String) where
  unfoldable pub ensure_organisation : ProvisionSpec → Store → Result Organisation × Store
  ensure_organisation spec s = elim (find_organisation s.organisations spec.organisation_slug) [
    | some org ↦
        let named : Organisation = record org { name = spec.organisation_name } in
        (ok named, record s { organisations = put s.organisations org.id named })
    | none ↦ elim (new_id "org") [
      | none ↦ (err other, s)
      | some i ↦
          let org : Organisation = record {
            id = i;
            slug = spec.organisation_slug;
            name = spec.organisation_name;
          } in
          (ok org, record s { organisations = put s.organisations i org })
    ]
  ]

  unfoldable pub ensure_project : ProvisionSpec → Organisation → Store → Result Project × Store
  ensure_project spec org s = elim (find_project s.projects org.id spec.project_slug) [
    | some proj ↦
        let named : Project = record proj { name = spec.project_name } in
        (ok named, record s { projects = put s.projects proj.id named })
    | none ↦ elim (new_id "prj") [
      | none ↦ (err other, s)
      | some i ↦
          let proj : Project = record {
            id = i;
            organisation_id = org.id;
            slug = spec.project_slug;
            name = spec.project_name;
          } in
          (ok proj, record s { projects = put s.projects i proj })
    ]
  ]

  unfoldable pub ensure_environment :
      ProvisionSpec → Organisation → Project → Store → Result Environment × Store
  ensure_environment spec org proj s =
      elim (find_environment s.environments org.id proj.id spec.environment_slug) [
        | some env ↦
            let named : Environment = record env { name = spec.environment_name } in
            (ok named, record s { environments = put s.environments env.id named })
        | none ↦ elim (new_id "env") [
          | none ↦ (err other, s)
          | some i ↦
              let env : Environment = record {
                id = i;
                organisation_id = org.id;
                project_id = proj.id;
                slug = spec.environment_slug;
                name = spec.environment_name;
              } in
              (ok env, record s { environments = put s.environments i env })
        ]
      ]

  unfoldable pub ensure_model : ProvisionSpec → Store → Result Model × Store
  ensure_model spec s = elim (find_model s.models spec.model_alias) [
    | some mdl ↦
        let enabled : Model = record mdl { enabled = true } in
        if not (mdl.version == spec.model_version)
        then (err conflict, s)
        else (ok enabled, record s { models = put s.models mdl.id enabled })
    | none ↦ elim (new_id "mdl") [
      | none ↦ (err other, s)
      | some i ↦
          let mdl : Model = record {
            id = i;
            alias = spec.model_alias;
            version = spec.model_version;
            enabled = true;
          } in
          (ok mdl, record s { models = put s.models i mdl })
    ]
  ]

  unfoldable pub ensure_target : ProvisionSpec → Organisation → Store → Result Target × Store
  unfolding is_same_target configured_target
  ensure_target spec org s = elim (find_target s.targets spec.target_name) [
    | some t ↦
        let target : Target =
          configured_target spec org t.id t.health_status t.last_health_check_at
            t.last_success_at in
        if not (is_same_target spec org t)
        then (err conflict, s)
        else (ok target, record s { targets = put s.targets t.id target })
    | none ↦ elim (new_id "tgt") [
      | none ↦ (err other, s)
      | some i ↦
          let target : Target = configured_target spec org i "" none none in
          (ok target, record s { targets = put s.targets i target })
    ]
  ]

  unfoldable pub ensure_route :
      Organisation → Project → Environment → Model → Target → Store → Result Binding × Store
  unfolding write_route
  ensure_route org proj env mdl target s = elim (find_route s.routes org.id proj.id env.id mdl.id) [
    | some rt ↦
        write_route org target
          (if rt.target_id == target.id
            then rt
            else record rt { binding_generation = suc rt.binding_generation })
          s
    | none ↦ elim (new_id "rte") [
      | none ↦ (err other, s)
      | some i ↦
          write_route org target
            (record {
              id = i;
              organisation_id = org.id;
              project_id = proj.id;
              environment_id = env.id;
              model_id = mdl.id;
              target_id = "";
              binding_generation = 1;
              enabled = false;
              created_at = s.now;
              updated_at = 0;
            })
            s
    ]
  ]

  unfoldable pub ensure_account :
      ProvisionSpec → Organisation → Project → Environment → Store → Result ServiceAccount × Store
  ensure_account spec org proj env s =
      elim (find_service_account s.service_accounts org.id proj.id env.id spec.service_account) [
        | some account ↦ (ok account, s)
        | none ↦ elim (new_id "sa") [
          | none ↦ (err other, s)
          | some i ↦
              let account : ServiceAccount = record {
                id = i;
                organisation_id = org.id;
                project_id = proj.id;
                environment_id = env.id;
                name = spec.service_account;
              } in
              (ok account, record s { service_accounts = put s.service_accounts i account })
        ]
      ]

  -- From the service account on: its active key, or a new one.
  unfoldable pub ensure_key :
      Option Key
      → ProvisionSpec
      → ServiceAccount
      → ProvisionResult
      → Store
      → Result ProvisionResult × Store
  unfolding add_key
  ensure_key generated spec account result s = elim (active_key_for_account s.keys account.id) [
    | some existing ↦
        (ok (record result { key_prefix = existing.prefix; scopes = existing.scopes }), s)
    | none ↦ next (add_key new_id generated account.id spec.scopes s) (λ key s'. (
      ok (record result { key_prefix = key.prefix; api_key = key.token; key_created = true }),
      s',
    ))
  ]

  -- Provision, for a specification that is validated.
  unfoldable pub provision_valid :
      Option Key → ProvisionSpec → Store → Result ProvisionResult × Store
  unfolding ensure_organisation ensure_project ensure_environment ensure_model ensure_target
      ensure_route ensure_account ensure_key
  provision_valid generated spec s0 = next (ensure_organisation spec s0) (λ org s1.
      next (ensure_project spec org s1) (λ proj s2.
        next (ensure_environment spec org proj s2) (λ env s3. next (ensure_model spec s3) (λ mdl s4.
          next (ensure_target spec org s4) (λ target s5.
            next (ensure_route org proj env mdl target s5) (λ rt s6.
              next (ensure_account spec org proj env s6) (λ account s7.
                ensure_key generated spec account
                  (record {
                    organisation_id = org.id;
                    project_id = proj.id;
                    environment_id = env.id;
                    route_id = rt.id;
                    target_id = target.id;
                    service_account_id = account.id;
                    key_prefix = "";
                    api_key = "";
                    key_created = false;
                    scopes = spec.scopes;
                  })
                  s7)))))))

  unfoldable pub provision :
      (String → Option Url) → Option Key → ProvisionSpec → Store → Result ProvisionResult × Store
  unfolding validate_spec provision_valid
  provision parse_url generated input s = elim (validate_spec parse_url true input) [
    | err e ↦ (err e, s)
    | ok spec ↦ provision_valid generated spec s
  ]
