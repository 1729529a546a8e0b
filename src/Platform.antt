-- ===== src/Platform.antt =====
-- internal/platform/types.go: the data that the gateway, the stores and the worker exchange, and
-- the errors of the store interface. A time is its number of nanoseconds, 0 the zero time; the
-- counts, statuses and durations are natural numbers. A digest of 32 bytes is its text.
pub mod Portal
use alzette.Shared.{
  ◌≡◌, refl, ◌⊎◌, inl, inr, ℕ, String, ◌==◌, Bool, true, not, Option, none, List, contains,
  if◌then◌else◌,
}
use alzette.Shared.Int.{ℤ}

abbrev pub Time : Type 0
Time = ℕ

abbrev pub Duration : Type 0
Duration = ℕ

abbrev pub Digest : Type 0
Digest = String

abbrev pub scope_inference_write : String
scope_inference_write = "inference:write"

abbrev pub scope_usage_read : String
scope_usage_read = "usage:read"

abbrev pub scope_routes_read : String
scope_routes_read = "routes:read"

-- The sentinels that `errors.Is` finds; `other` is any error that wraps none of them.
pub data Error : Type 0 where
  not_found unauthenticated forbidden unavailable conflict invalid other : Error

pub data Result {ℓ} (A : Type ℓ) : Type ℓ where
  ok : A → Result A
  err : Error → Result A

pub Result-cases {ℓ} :
    {A : Type ℓ} (r : Result A) → ((a : A) × (r ≡ ok a)) ⊎ ((e : Error) × (r ≡ err e))
Result-cases (ok a) = inl (a, refl)
Result-cases (err e) = inr (e, refl)

pub err_ne_ok {ℓ} : {A : Type ℓ} (a : A) (e : Error) → let r : Result A = err e in r ≡ ok a → ⊥
err_ne_ok a e p = cc

pub record Principal : Type 0 where
  pub credential_kind : String
  pub organisation_id : String
  pub organisation_name : String
  pub organisation_slug : String
  pub project_id : String
  pub project_name : String
  pub project_slug : String
  pub environment_id : String
  pub environment_name : String
  pub environment_slug : String
  pub service_account_id : String
  pub service_account : String
  pub api_key_id : String
  pub key_prefix : String
  pub human_user_id : String
  pub human_membership_id : String
  pub agent_grant_id : String
  pub agent_token_id : String
  pub allowed_model_aliases : List String
  pub scopes : List String

unfoldable pub has_scope : Principal → String → Bool
has_scope p scope = contains p.scopes scope

unfoldable pub allows_model : Principal → String → Bool
allows_model p alias =
    if not (p.credential_kind == "human_agent_token")
    then true
    else contains p.allowed_model_aliases alias

pub record Target : Type 0 where
  pub id : String
  pub name : String
  pub execution_class : String
  pub capacity_mode : String
  pub capacity_evidence_ref : String
  pub owner_organisation_id : String
  pub base_url : String
  pub provider_model : String
  pub secret_ref : String
  pub timeout : Duration
  pub max_attempts : ℕ
  pub enabled : Bool
  pub health_status : String
  pub last_health_check_at : Option Time
  pub last_success_at : Option Time

pub record Route : Type 0 where
  pub id : String
  pub organisation_id : String
  pub project_id : String
  pub environment_id : String
  pub model_id : String
  pub model_alias : String
  pub model_version : String
  pub model_enabled : Bool
  pub binding_generation : ℕ
  pub enabled : Bool
  pub target : Target
  pub created_at : Time
  pub updated_at : Time

pub record TokenUsage : Type 0 where
  pub input_tokens : Option ℤ
  pub output_tokens : Option ℤ
  pub total_tokens : Option ℤ
  pub cached_tokens : Option ℤ
  pub cached_write_tokens : Option ℤ
  pub cached_write_tokens_5m : Option ℤ
  pub cached_write_tokens_1h : Option ℤ
  pub reasoning_tokens : Option ℤ
  pub text_input_tokens : Option ℤ
  pub audio_input_tokens : Option ℤ
  pub image_input_tokens : Option ℤ
  pub normalization : String

-- platform.TokenUsage{}
abbrev pub no_usage : TokenUsage
no_usage = record {
  input_tokens = none;
  output_tokens = none;
  total_tokens = none;
  cached_tokens = none;
  cached_write_tokens = none;
  cached_write_tokens_5m = none;
  cached_write_tokens_1h = none;
  reasoning_tokens = none;
  text_input_tokens = none;
  audio_input_tokens = none;
  image_input_tokens = none;
  normalization = "";
}

pub record InferenceRequest : Type 0 where
  pub id : String
  pub organisation_id : String
  pub project_id : String
  pub environment_id : String
  pub route_id : String
  pub bound_target_id : String
  pub bound_model_id : String
  pub route_binding_generation : ℕ
  pub service_account_id : String
  pub api_key_id : String
  pub key_prefix : String
  pub model_alias : String
  pub executed_model : String
  pub provider_request_id : String
  pub started_at : Time
  pub completed_at : Option Time
  pub status : String
  pub http_status : ℕ
  pub error_class : String
  pub duration : Duration
  pub usage : TokenUsage
  pub usage_finality : String
  pub attempt_count : ℕ

pub record ProviderAttempt : Type 0 where
  pub id : String
  pub inference_request_id : String
  pub target_id : String
  pub attempt_number : ℕ
  pub started_at : Time
  pub completed_at : Option Time
  pub status : String
  pub provider_http_status : ℕ
  pub error_class : String
  pub duration : Duration
  pub provider_request_id : String
  pub usage : TokenUsage
  pub usage_finality : String

pub record RequestStart : Type 0 where
  pub id : String
  pub principal : Principal
  pub model_alias : String
  pub started_at : Time

pub record RequestFinish : Type 0 where
  pub id : String
  pub completed_at : Time
  pub status : String
  pub http_status : ℕ
  pub error_class : String
  pub executed_model : String
  pub provider_request_id : String
  pub duration : Duration
  pub usage : TokenUsage
  pub usage_finality : String

pub record AttemptStart : Type 0 where
  pub id : String
  pub inference_request_id : String
  pub target_id : String
  pub attempt_number : ℕ
  pub started_at : Time

pub record AttemptFinish : Type 0 where
  pub id : String
  pub completed_at : Time
  pub status : String
  pub provider_http_status : ℕ
  pub error_class : String
  pub duration : Duration
  pub provider_request_id : String
  pub usage : TokenUsage
  pub usage_finality : String

pub record UsageFilter : Type 0 where
  pub from : Time
  pub to : Time
  pub model_alias : String
  pub limit : ℕ

pub record RequestPage : Type 0 where
  pub requests : List InferenceRequest
  pub truncated : Bool
