-- ===== src/Memory/Defs.antt =====
-- The state of the store, and its searches over the values of a map.
use alzette.Shared.{
  ℕ, String, ◌==◌, Bool, ◌&&◌, true, false, Option, none, some, List, [], ◌∷◌, if◌then◌else◌,
}
use alzette.Shared.Dict.{Dict, values}
use alzette.Platform.{Time, Digest, Target, Route, InferenceRequest, ProviderAttempt}

pub record Organisation : Type 0 where
  pub id : String
  pub slug : String
  pub name : String

pub record Project : Type 0 where
  pub id : String
  pub organisation_id : String
  pub slug : String
  pub name : String

pub record Environment : Type 0 where
  pub id : String
  pub organisation_id : String
  pub project_id : String
  pub slug : String
  pub name : String

pub record Model : Type 0 where
  pub id : String
  pub alias : String
  pub version : String
  pub enabled : Bool

pub record ServiceAccount : Type 0 where
  pub id : String
  pub organisation_id : String
  pub project_id : String
  pub environment_id : String
  pub name : String

pub record ApiKey : Type 0 where
  pub id : String
  pub service_account_id : String
  pub prefix : String
  pub digest : Digest
  pub scopes : List String
  pub revoked_at : Option Time

-- The source's type `route`.
pub record Binding : Type 0 where
  pub id : String
  pub organisation_id : String
  pub project_id : String
  pub environment_id : String
  pub model_id : String
  pub target_id : String
  pub binding_generation : ℕ
  pub enabled : Bool
  pub created_at : Time
  pub updated_at : Time

pub record Store : Type 0 where
  pub now : Time
  pub organisations : Dict Organisation
  pub projects : Dict Project
  pub environments : Dict Environment
  pub models : Dict Model
  pub targets : Dict Target
  pub service_accounts : Dict ServiceAccount
  pub keys : Dict ApiKey
  pub routes : Dict Binding
  pub requests : Dict InferenceRequest
  pub attempts : Dict ProviderAttempt

-- The first value of a list that passes a test: `for _, value := range values { if … return }`.
unfoldable pub find_first : {A : Type 0} → (A → Bool) → List A → Option A
find_first p [] = none
find_first p (x ∷ xs) = let rest = find_first p xs in if p x then some x else rest

unfoldable pub find_organisation : Dict Organisation → String → Option Organisation
unfolding find_first values
find_organisation m slug = find_first (λ v. v.slug == slug) (values m)

unfoldable pub find_project : Dict Project → String → String → Option Project
unfolding find_first values
find_project m org_id slug =
    find_first (λ v. v.organisation_id == org_id && v.slug == slug) (values m)

unfoldable pub find_environment : Dict Environment → String → String → String → Option Environment
unfolding find_first values
find_environment m org_id project_id slug =
    find_first (λ v. v.organisation_id == org_id && (v.project_id == project_id && v.slug == slug))
      (values m)

unfoldable pub find_model : Dict Model → String → Option Model
unfolding find_first values
find_model m alias = find_first (λ v. v.alias == alias) (values m)

unfoldable pub find_target : Dict Target → String → Option Target
unfolding find_first values
find_target m name = find_first (λ v. v.name == name) (values m)

unfoldable pub find_route : Dict Binding → String → String → String → String → Option Binding
unfolding find_first values
find_route m org_id project_id env_id model_id =
    find_first
      (λ v.
        v.organisation_id == org_id
        && (v.project_id == project_id && (v.environment_id == env_id && v.model_id == model_id)))
      (values m)

unfoldable pub find_service_account :
    Dict ServiceAccount → String → String → String → String → Option ServiceAccount
unfolding find_first values
find_service_account m org_id project_id env_id name =
    find_first
      (λ v.
        v.organisation_id == org_id
        && (v.project_id == project_id && (v.environment_id == env_id && v.name == name)))
      (values m)

unfoldable pub active_key_for_account : Dict ApiKey → String → Option ApiKey
unfolding find_first values
active_key_for_account m account_id =
    find_first
      (λ k.
        k.service_account_id == account_id && elim k.revoked_at [ none ↦ true | some t ↦ false ])
      (values m)

unfoldable pub materialise_route : Binding → Model → Target → Route
materialise_route rt mdl target = record {
  id = rt.id;
  organisation_id = rt.organisation_id;
  project_id = rt.project_id;
  environment_id = rt.environment_id;
  model_id = mdl.id;
  model_alias = mdl.alias;
  model_version = mdl.version;
  model_enabled = mdl.enabled;
  binding_generation = rt.binding_generation;
  enabled = rt.enabled;
  target = target;
  created_at = rt.created_at;
  updated_at = rt.updated_at;
}
