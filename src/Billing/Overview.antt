-- ===== src/Billing/Overview.antt =====
-- New and Summary of billing.go. A store that reads no summary is one without SummaryReader.
use alzette.Shared.{
  String, ◌==◌, Bool, true, false, ◌&&◌, ◌||◌, not, Option, none, some, List, ◌⊎◌, inl, inr,
  if◌then◌else◌,
}
use alzette.Shared.Int.{ℤ}
use alzette.Platform.{Time, Result, ok, err, unavailable}
use alzette.Platform.Portal.{PortalSession, org_admin}
use alzette.Provisioning.Spec.{Url}
use alzette.Billing.{BillingError, stored, Capability, Provider, Service}

pub record Invoice : Type 0 where
  pub reference : String
  pub status : String
  pub amount_due_minor : ℤ
  pub amount_paid_minor : ℤ
  pub currency : String
  pub due_at : Option Time
  pub paid_at : Option Time
  pub issued_at : Time

pub record Summary : Type 0 where
  pub schema : String
  pub configured : Bool
  pub provider : String
  pub state : String
  pub detail : String
  pub account_name : String
  pub commercial_state : String
  pub tax_status : String
  pub checkout_state : String
  pub confirmed_at : Option Time
  pub can_manage : Bool
  pub invoices : List Invoice

-- What the summary of the store becomes with the provider's capability.
unfoldable pub complete_summary : Capability → PortalSession → Summary → Summary
complete_summary capability session loaded =
    let result : Summary = record loaded {
      schema = "alzette.portal.billing.v1";
      configured = capability.configured;
      provider = capability.provider;
      can_manage =
          session.current.role == org_admin && (capability.configured && not (loaded.state == ""));
    } in
    if not capability.configured
    then record result {
      state = "not_configured";
      detail =
          "Hosted billing is not configured for this deployment. No payment action is available.";
      can_manage = false;
    }
    else if result.state == ""
    then record result {
      state = "not_started";
      detail =
          "Billing is available, but this organisation has not started a hosted billing relationship.";
    }
    else result

unfoldable pub summary :
    {S : Type 0}
    → Capability
    → Option (PortalSession → S → Result Summary)
    → PortalSession
    → S
    → BillingError ⊎ Summary
unfolding complete_summary
summary capability none session s = inl (stored unavailable)
summary capability (some read) session s = elim (read session s) [
  | err e ↦ inl (stored e)
  | ok result ↦ inr (complete_summary capability session result)
]

-- UnavailableProvider
abbrev pub unavailable_provider : Provider
unavailable_provider = record {
  capability = record {
    configured = false;
    provider = "";
    mode = "hosted_checkout";
    detail = "Hosted billing is not configured.";
  };
  ensure_customer = λ n input. inl true;
  create_checkout = λ n input. inl true;
  create_customer_portal = λ n input. inl true;
}

-- New, for a store and a provider: whether it succeeds.
unfoldable pub is_return_url : (String → Option Url) → String → Bool
is_return_url parse_url value = elim (parse_url value) [
  | none ↦ false
  | some u ↦ u.scheme == "https" && (not (u.host == "") && (not u.has_user && u.fragment == ""))
]

unfoldable pub valid_service : {S : Type 0} → Service S → Bool
unfolding is_return_url
valid_service service =
    not service.provider.capability.configured
    || (is_return_url service.parse_url service.success_url
        && (is_return_url service.parse_url service.cancel_url
            && is_return_url service.parse_url service.return_url))
