-- ===== src/Memory/Provision/Gives.antt =====
-- What the steps of Provision of store.go leave: the facts on a model, a target and a route, and what
-- holds of a call that gives no error.
use alzette.Shared.{suc, String, eq_iff, ◌≡◌, ◌≢◌, ◌∙◌, ◌⊎◌, true, false, Option, none, some, arith}
use alzette.Shared.Dict.{Dict, get, put, get-put}
use alzette.Platform.{Result, ok, err, Target}
use alzette.Provisioning.Spec.{ProvisionSpec}
use alzette.Credentials.{Key}
use alzette.Memory.Defs.{
  active_key_for_account, ApiKey, Store, Model, Binding, find_target, find_route,
}
use alzette.Memory.Provision.{ProvisionResult}
use alzette.Memory.Provision.Keys.{next}

-- What holds of the value and the store that a call gives, if it gives no error.
abbrev pub OnOk : {A : Type 0} → (A → Type 0) → Result A → Type 0
OnOk P (ok a) = P a
OnOk P (err e) = Unit

abbrev pub Gives : {A : Type 0} → (A → Store → Type 0) → Result A × Store → Type 0
Gives P x = OnOk (λ a. P a x.1) x.0

pub next-Gives :
    {A B : Type 0} (P : A → Store → Type 0) (Q : B → Store → Type 0) (x : Result A × Store)
    (f : A → Store → Result B × Store)
    → Gives P x
    → ((a : A) (t : Store) → P a t → Gives Q (f a t))
    → Gives Q (next x f)
next-Gives P Q (err e, s) f h k = tt
next-Gives P Q (ok a, s) f h k = k a s h

pub Gives-map :
    {A : Type 0} (P Q : A → Store → Type 0) (x : Result A × Store)
    → ((a : A) (t : Store) → P a t → Q a t)
    → Gives P x
    → Gives Q x
Gives-map P Q (err e, s) f h = tt
Gives-map P Q (ok a, s) f h = f a s h

pub stored {ℓ} : {V : Type ℓ} (m : Dict V) (k : String) (v : V) → get (put m k v) k ≡ some v
stored m k v = ground (arith, get-put m k k v, eq_iff k k)

-- The tables of models, targets, routes and keys are as they were.
pub record Same (s t : Store) : Type 0 where
  pub models : t.models ≡ s.models
  pub targets : t.targets ≡ s.targets
  pub routes : t.routes ≡ s.routes
  pub keys : t.keys ≡ s.keys

pub Same-trans : (s t u : Store) → Same s t → Same t u → Same s u
Same-trans s t u h k = record {
  models = k.models ∙ h.models;
  targets = k.targets ∙ h.targets;
  routes = k.routes ∙ h.routes;
  keys = k.keys ∙ h.keys;
}

-- The target has the configuration of the specification, and the organisation as its owner if it is
-- a dedicated one.
pub record IsConfigured (spec : ProvisionSpec) (org_id : String) (x : Target) : Type 0 where
  pub name : x.name ≡ spec.target_name
  pub execution_class : x.execution_class ≡ spec.execution_class
  pub capacity_mode : x.capacity_mode ≡ spec.capacity_mode
  pub evidence : x.capacity_evidence_ref ≡ spec.capacity_evidence_ref
  pub owner :
      ((spec.capacity_mode ≡ "dedicated") × (x.owner_organisation_id ≡ org_id))
      ⊎ ((spec.capacity_mode ≢ "dedicated") × (x.owner_organisation_id ≡ ""))
  pub base_url : x.base_url ≡ spec.target_base_url
  pub provider_model : x.provider_model ≡ spec.provider_model
  pub secret_ref : x.secret_ref ≡ spec.secret_ref
  pub timeout : x.timeout ≡ spec.target_timeout
  pub max_attempts : x.max_attempts ≡ spec.max_attempts

abbrev pub IsTarget : Dict Target → ProvisionSpec → String → Target → Type 0
IsTarget before spec org_id x =
    IsConfigured spec org_id x
    × (x.enabled ≡ true)
    × ((find_target before spec.target_name ≡ none)
        ⊎ ((old : Target) × (find_target before spec.target_name ≡ some old)
            × IsConfigured spec org_id old
            × (x.id ≡ old.id)))

abbrev pub IsModel : ProvisionSpec → Model → Type 0
IsModel spec m =
    (m.alias ≡ spec.model_alias) × (m.version ≡ spec.model_version) × (m.enabled ≡ true)

-- The generation of a route: 1 for a new one; that of the old one, or the next one if the target is
-- another.
abbrev pub Follows : Option Binding → Binding → Type 0
Follows none b = b.binding_generation ≡ 1
Follows (some old) b =
    (b.id ≡ old.id)
    × (((old.target_id ≡ b.target_id) × (b.binding_generation ≡ old.binding_generation))
        ⊎ ((old.target_id ≢ b.target_id) × (b.binding_generation ≡ suc old.binding_generation)))

pub record IsRoute (before : Dict Binding) (org_id project_id env_id model_id target_id : String)
    (b : Binding) : Type 0 where
  pub organisation : b.organisation_id ≡ org_id
  pub project : b.project_id ≡ project_id
  pub environment : b.environment_id ≡ env_id
  pub model : b.model_id ≡ model_id
  pub target : b.target_id ≡ target_id
  pub enabled : b.enabled ≡ true
  pub generation : Follows (find_route before org_id project_id env_id model_id) b

-- The key of the result's account: the active one that it had, without its token; or the generated
-- one for an account that had none, with its token.
abbrev pub IsKeyed :
    Dict ApiKey → Option Key → ProvisionSpec → ProvisionResult → Dict ApiKey → Type 0
IsKeyed before generated spec r after =
    ((old : ApiKey) × (active_key_for_account before r.service_account_id ≡ some old)
      × (after ≡ before)
      × (r.key_created ≡ false)
      × (r.api_key ≡ "")
      × (r.key_prefix ≡ old.prefix)
      × (r.scopes ≡ old.scopes))
    ⊎ ((key : Key) × (generated ≡ some key)
        × (active_key_for_account before r.service_account_id ≡ none)
        × (r.key_created ≡ true)
        × (r.api_key ≡ key.token)
        × (r.key_prefix ≡ key.prefix)
        × ((k : ApiKey) × (get after key.digest ≡ some k)
            × (k.service_account_id ≡ r.service_account_id)
            × (k.scopes ≡ spec.scopes)
            × (k.revoked_at ≡ none)))
