-- ===== src/Endpoints/Types.antt =====
-- internal/endpoints/endpoints.go: the data of endpoints. The capacity of a quote is its JSON text.
use alzette.Shared.{String, Bool, Option}
use alzette.Shared.Int.{ℤ}
use alzette.Platform.{Time}

pub record Workload : Type 0 where
  pub use_case : String
  pub expected_context_tokens : Option ℤ
  pub expected_concurrency : Option ℤ
  pub expected_requests_per_minute : Option ℤ
  pub latency_priority : Option String
  pub expected_monthly_requests : Option ℤ
  pub expected_user_count : Option ℤ

pub record Configuration : Type 0 where
  pub id : String
  pub model_slug : String
  pub model_name : String
  pub release_version : String
  pub offer_code : String
  pub offer_kind : String
  pub profile_code : String
  pub endpoint_alias : String
  pub capacity_units : ℤ
  pub workload : Workload
  pub status : String
  pub request_id : Option String
  pub created_at : Time
  pub submitted_at : Option Time

pub record Rail : Type 0 where
  pub state : String
  pub detail : String

pub record PaymentRequirement : Type 0 where
  pub id : String
  pub purpose : String
  pub state : String
  pub amount_minor : ℤ
  pub currency : String
  pub billing_period : String
  pub tax_treatment : String
  pub collection_mode : String
  pub price_finality : String
  pub paid_at : Option Time

pub record Allowance : Type 0 where
  pub logical_request_limit : Option ℤ
  pub logical_requests_used : ℤ
  pub reported_token_limit : Option ℤ
  pub period : String
  pub period_start : Option Time
  pub period_end : Option Time
  pub hard_limit : Bool

pub record Endpoint : Type 0 where
  pub id : String
  pub configuration_id : String
  pub deployment_request_id : Option String
  pub alias : String
  pub model_slug : String
  pub model_name : String
  pub model_version : String
  pub profile_code : String
  pub service_mode : String
  pub execution_class : String
  pub execution_evidenced : Bool
  pub capacity_units : ℤ
  pub allowance : Option Allowance
  pub configuration : Rail
  pub commercial : Rail
  pub payment : Rail
  pub runtime : Rail
  pub payment_requirement : Option PaymentRequirement
  pub route_bound : Bool
  pub callable : Bool
  pub created_at : Time
  pub updated_at : Time

pub record DeploymentRequest : Type 0 where
  pub id : String
  pub configuration_id : String
  pub endpoint_id : String
  pub kind : String
  pub status : String
  pub profile_code : String
  pub model_slug : String
  pub model_name : String
  pub model_version : String
  pub endpoint_alias : String
  pub current_capacity_units : Option ℤ
  pub requested_capacity_units : ℤ
  pub workload : Workload
  pub quote_id : Option String
  pub payment_requirement_id : Option String
  pub submitted_at : Option Time
  pub approved_at : Option Time
  pub completed_at : Option Time

pub record Quote : Type 0 where
  pub id : String
  pub deployment_request_id : String
  pub version : ℤ
  pub kind : String
  pub profile_code : String
  pub capacity_units : ℤ
  pub service_mode : String
  pub execution_class : String
  pub accelerator_class : Option String
  pub accelerator_count : Option ℤ
  pub capacity : String
  pub currency : String
  pub billing_period : String
  pub recurring_unit_amount_minor : ℤ
  pub recurring_total_amount_minor : ℤ
  pub setup_total_amount_minor : ℤ
  pub tax_treatment : String
  pub price_finality : String
  pub status : String
  pub collection_mode : String
  pub payment_due_days : Option ℤ
  pub source : String
  pub offered_at : Time
  pub expires_at : Time
  pub accepted_at : Option Time

pub record CreateInput : Type 0 where
  pub model_slug : String
  pub service_mode : String
  pub offer_code : String
  pub profile_code : String
  pub endpoint_alias : String
  pub capacity_units : ℤ
  pub workload : Workload

pub record PatchInput : Type 0 where
  pub capacity_units : Option ℤ
  pub workload : Option Workload

pub record AcceptResult : Type 0 where
  pub quote : Quote
  pub endpoint : Endpoint
  pub payment_requirement : Option PaymentRequirement
