-- ===== src/Billing.antt =====
-- internal/billing/billing.go: the service over the store and the provider of hosted payments, which
-- are parameters, as are the hash and the parser of URLs. The n-th reading of the clock and the
-- provider's answer to the n-th call are functions of n. The fake provider of the tests is left out.
pub mod Checkout
pub mod Overview
pub mod Guards
pub mod Safety
use alzette.Shared.{
  ℕ, suc, ◌-◌, ◌*◌, String, len, ◌==◌, Bool, true, false, ◌&&◌, ◌||◌, not, Option, none, some, List,
  ◌∷◌, ltb, leb, eqb, ◌⊎◌, inl, inr, if◌then◌else◌, length,
}
use alzette.Shared.Int.{ℤ}
use alzette.Shared.Space.{trim_space, has_part}
use alzette.Platform.{Time, Digest, Result, Error, invalid, unavailable}
use alzette.Platform.Portal.{PortalSession}
use alzette.Provisioning.Spec.{Url}

-- The errors of the store, and those of this package.
pub data BillingError : Type 0 where
  stored : Error → BillingError
  not_configured recent_authentication_required : BillingError

pub record Capability : Type 0 where
  pub configured : Bool
  pub provider : String
  pub mode : String
  pub detail : String

pub record CustomerInput : Type 0 where
  pub organisation_id : String
  pub legal_name : String
  pub idempotency_key : String

pub record CustomerResult : Type 0 where
  pub provider_customer_ref : String
  pub provider_request_id : String

pub record CheckoutInput : Type 0 where
  pub payment_requirement_id : String
  pub endpoint_id : String
  pub customer_ref : String
  pub price_ref : String
  pub mode : String
  pub quantity : ℕ
  pub success_url : String
  pub cancel_url : String
  pub idempotency_key : String

pub record HostedResult : Type 0 where
  pub provider_session_ref : String
  pub url : String
  pub expires_at : Time
  pub provider_request_id : String

pub record PortalInput : Type 0 where
  pub customer_ref : String
  pub return_url : String
  pub idempotency_key : String

pub record CheckoutPlan : Type 0 where
  pub organisation_id : String
  pub organisation_name : String
  pub endpoint_id : String
  pub payment_requirement_id : String
  pub provider : String
  pub provider_customer_ref : String
  pub provider_price_ref : String
  pub mode : String
  pub operation_id : String
  pub operation_key : String

pub record CheckoutResponse : Type 0 where
  pub schema : String
  pub payment_requirement_id : String
  pub state : String
  pub hosted_url : String
  pub expires_at : Option Time
  pub payment_confirmed : Bool
  pub runtime_ready : Bool

pub record PortalPlan : Type 0 where
  pub organisation_id : String
  pub provider_customer_ref : String
  pub operation_key : String

pub record PortalResponse : Type 0 where
  pub schema : String
  pub hosted_url : String
  pub expires_at : Option Time

-- A call of the provider.
pub data ProviderCall : Type 0 where
  for_customer : CustomerInput → ProviderCall
  for_checkout : CheckoutInput → ProviderCall
  for_portal : PortalInput → ProviderCall

-- Provider. An error is told apart as ErrNotConfigured (true) or another one.
pub record Provider : Type 0 where
  pub capability : Capability
  pub ensure_customer : ℕ → CustomerInput → Bool ⊎ CustomerResult
  pub create_checkout : ℕ → CheckoutInput → Bool ⊎ HostedResult
  pub create_customer_portal : ℕ → PortalInput → Bool ⊎ HostedResult

-- Store
pub record BillingStore (S : Type 0) : Type 0 where
  pub prepare_checkout :
      PortalSession
      → String
      → Digest
      → Time
      → S
      → Result (CheckoutPlan × Option CheckoutResponse) × S
  pub set_billing_customer : PortalSession → String → String → Time → S → Result (Unit {0}) × S
  pub complete_checkout :
      PortalSession → CheckoutPlan → HostedResult → Time → S → Result (Unit {0}) × S
  pub prepare_billing_portal : PortalSession → Digest → Time → S → Result PortalPlan × S

-- Service, with crypto/sha256 and url.Parse.
pub record Service (S : Type 0) : Type 0 where
  pub store : BillingStore S
  pub provider : Provider
  pub clock : ℕ → Time
  pub success_url : String
  pub cancel_url : String
  pub return_url : String
  pub sha256 : String → Digest
  pub parse_url : String → Option Url

-- The store, how often the clock was read, and the calls of the provider, the last one first.
pub record World (S : Type 0) : Type 0 where
  pub store : S
  pub ticks : ℕ
  pub calls : List ProviderCall

-- time.Duration of 15 minutes
abbrev pub recent_window : ℕ
recent_window = 15 * 60 * 1000000000

unfoldable pub recent : PortalSession → Time → Bool
recent session now =
    not (eqb session.authenticated_at 0)
    && (leb session.authenticated_at now && leb (now - session.authenticated_at) recent_window)

unfoldable pub operation_digest : (String → Digest) → String → Option Digest
unfolding trim_space has_part
operation_digest sha256 value =
    if ltb (len value) 8
      || (ltb 128 (len value)
          || (not (trim_space value == value)
              || (has_part value "\r" || (has_part value "\n" || has_part value "\0"))))
    then none
    else some (sha256 value)

unfoldable pub validate_hosted_result : (String → Option Url) → HostedResult → Bool
validate_hosted_result parse_url value = elim (parse_url value.url) [
  | none ↦ false
  | some u ↦
      u.scheme == "https"
      && (not (u.host == "")
          && (not u.has_user
              && (not (value.provider_session_ref == "") && not (eqb value.expires_at 0))))
]

abbrev pub map_provider_error : Bool → BillingError
map_provider_error is_not_configured =
    if is_not_configured then not_configured else stored unavailable

module _ {S : Type 0} (service : Service S) where
  abbrev pub read_clock : World S → Time × World S
  read_clock w = (service.clock w.ticks, record w { ticks = suc w.ticks })

  abbrev pub Answer {ℓ} : Type ℓ → Type ℓ
  Answer A = (BillingError ⊎ A) × World S

  abbrev pub refuse {ℓ} : {A : Type ℓ} → BillingError → World S → Answer A
  refuse e w = (inl e, w)

abbrev pub call_store {ℓ} :
    {S : Type 0} {A : Type ℓ} → (S → Result A × S) → World S → Result A × World S
call_store op w = let (r, s) = op w.store in (r, record w { store = s })

-- A call of the provider: its answer, and the call in the list of calls.
abbrev pub call_provider {ℓ} :
    {S : Type 0} {A : Type ℓ} → ProviderCall → (ℕ → Bool ⊎ A) → World S → (Bool ⊎ A) × World S
call_provider c op w = (op (length w.calls), record w { calls = c ∷ w.calls })
