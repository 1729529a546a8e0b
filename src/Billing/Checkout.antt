-- ===== src/Billing/Checkout.antt =====
-- CreateCheckout and CreatePortal of billing.go. The stages are functions that call the next one.
use alzette.Shared.{String, ◌==◌, false, not, none, some, inl, inr, if◌then◌else◌}
use Prim.Native.String
use alzette.Platform.{Time, ok, err, forbidden, invalid, unavailable}
use alzette.Platform.Portal.{PortalSession, org_admin}
use alzette.Billing.{
  stored, not_configured, recent_authentication_required, CheckoutPlan, CheckoutResponse,
  CheckoutInput, CustomerInput, PortalInput, PortalResponse, HostedResult, for_customer,
  for_checkout, for_portal, Service, World, recent, operation_digest, validate_hosted_result,
  map_provider_error, read_clock, Answer, refuse, call_store, call_provider,
}

module _ {S : Type 0} (service : Service S) where
  -- The request for a new checkout of a plan whose customer is known.
  abbrev pub checkout_input : CheckoutPlan → CheckoutInput
  checkout_input plan = record {
    payment_requirement_id = plan.payment_requirement_id;
    endpoint_id = plan.endpoint_id;
    customer_ref = plan.provider_customer_ref;
    price_ref = plan.provider_price_ref;
    mode = plan.mode;
    quantity = 1;
    success_url = service.success_url;
    cancel_url = service.cancel_url;
    idempotency_key = plan.operation_key;
  }

  unfoldable pub checkout_response : String → HostedResult → CheckoutResponse
  checkout_response requirement_id hosted = record {
    schema = "alzette.portal.checkout.v1";
    payment_requirement_id = requirement_id;
    state = "action_required";
    hosted_url = hosted.url;
    expires_at = some hosted.expires_at;
    payment_confirmed = false;
    runtime_ready = false;
  }

  -- From the provider's CreateCheckout on.
  unfoldable pub hosted_checkout :
      PortalSession → String → CheckoutPlan → Time → World S → Answer service CheckoutResponse
  unfolding validate_hosted_result checkout_response
  hosted_checkout session requirement_id plan now w =
      let input = checkout_input plan in
      let (r, w1) =
        call_provider (for_checkout input) (λ n. service.provider.create_checkout n input) w in
      elim r [
        | inl e ↦ refuse service (map_provider_error e) w1
        | inr hosted ↦
            let (saved, w2) =
              call_store (service.store.complete_checkout session plan hosted now) w1 in
            if not (validate_hosted_result service.parse_url hosted)
            then refuse service (stored unavailable) w1
            else elim saved [
              | err e ↦ refuse service (stored e) w2
              | ok u ↦ (inr (checkout_response requirement_id hosted), w2)
            ]
      ]

  -- The plan's customer is made if there is none yet.
  unfoldable pub planned_checkout :
      PortalSession → String → CheckoutPlan → Time → World S → Answer service CheckoutResponse
  unfolding hosted_checkout
  planned_checkout session requirement_id plan now w =
      if not (plan.provider_customer_ref == "")
      then hosted_checkout session requirement_id plan now w
      else (let input : CustomerInput = record {
        organisation_id = plan.organisation_id;
        legal_name = plan.organisation_name;
        idempotency_key = String.◌++◌ "alzette-customer-" plan.organisation_id;
      } in
          let (r, w1) =
            call_provider (for_customer input) (λ n. service.provider.ensure_customer n input) w in
          elim r [
            | inl e ↦ refuse service (map_provider_error e) w1
            | inr customer ↦
                let (saved, w2) =
                  call_store
                    (service.store.set_billing_customer session customer.provider_customer_ref
                      "stripe" now)
                    w1 in
                elim saved [
                  | err e ↦ refuse service (stored e) w2
                  | ok u ↦
                      hosted_checkout session requirement_id
                        (record plan { provider_customer_ref = customer.provider_customer_ref }) now
                        w2
                ]
          ])

  -- From PrepareCheckout on.
  unfoldable pub prepared_checkout :
      PortalSession → String → String → World S → Answer service CheckoutResponse
  unfolding planned_checkout
  prepared_checkout session requirement_id digest w =
      let (now, w1) = read_clock service w in
      let (r, w2) =
        call_store (service.store.prepare_checkout session requirement_id digest now) w1 in
      elim r [
        | err e ↦ refuse service (stored e) w2
        | ok (plan, some existing) ↦ (inr existing, w2)
        | ok (plan, none) ↦ planned_checkout session requirement_id plan now w2
      ]

  -- The checks that CreateCheckout and CreatePortal share: `next` gets the digest of the key.
  abbrev pub guarded {ℓ} :
      {A : Type ℓ}
      → PortalSession
      → String
      → World S
      → (String → World S → Answer service A)
      → Answer service A
  guarded session key w next =
      let (now, w1) = read_clock service w in
      if not (session.current.role == org_admin)
      then refuse service (stored forbidden) w
      else if not (recent session now)
      then refuse service recent_authentication_required w1
      else if not service.provider.capability.configured
      then refuse service not_configured w1
      else elim (operation_digest service.sha256 key) [
        | none ↦ refuse service (stored invalid) w1
        | some digest ↦ next digest w1
      ]

  unfoldable pub create_checkout :
      PortalSession → String → String → World S → Answer service CheckoutResponse
  unfolding recent operation_digest prepared_checkout
  create_checkout session requirement_id key w =
      guarded session key w (λ digest v. prepared_checkout session requirement_id digest v)

  -- From PrepareBillingPortal on.
  unfoldable pub prepared_portal : PortalSession → String → World S → Answer service PortalResponse
  unfolding validate_hosted_result
  prepared_portal session digest w =
      let (now, w1) = read_clock service w in
      let (r, w2) = call_store (service.store.prepare_billing_portal session digest now) w1 in
      elim r [
        | err e ↦ refuse service (stored e) w2
        | ok plan ↦
            let input : PortalInput = record {
              customer_ref = plan.provider_customer_ref;
              return_url = service.return_url;
              idempotency_key = plan.operation_key;
            } in
            let (answer, w3) =
              call_provider (for_portal input)
                (λ n. service.provider.create_customer_portal n input) w2 in
            elim answer [
              | inl e ↦ refuse service (map_provider_error e) w3
              | inr hosted ↦
                  if not (validate_hosted_result service.parse_url hosted)
                  then refuse service (stored unavailable) w3
                  else (
                    inr (record {
                      schema = "alzette.portal.billing_session.v1";
                      hosted_url = hosted.url;
                      expires_at = some hosted.expires_at;
                    }),
                    w3,
                  )
            ]
      ]

  unfoldable pub create_portal : PortalSession → String → World S → Answer service PortalResponse
  unfolding recent operation_digest prepared_portal
  create_portal session key w = guarded session key w (λ digest v. prepared_portal session digest v)
