-- ===== src/Billing/Safety.antt =====
-- How CreateCheckout of billing.go calls the provider, and what its answer claims.
use alzette.Shared.{
  ◌==◌, eq_iff, String, ◌≡◌, ◌⊎◌, inl, inr, refl, true, false, not, some, List, [], ◌∷◌, ◌++◌, suc,
  arith, length, Bool-cases, Option-cases, Sum-cases, if_cases,
}
use Prim.Native.String
use alzette.Platform.{Time, Digest, Result-cases, ok}
use alzette.Platform.Portal.{PortalSession, org_admin}
use alzette.Provisioning.Spec.{Url}
use alzette.Billing.{
  BillingError, CheckoutPlan, CheckoutResponse, CustomerInput, HostedResult, ProviderCall,
  for_customer, for_checkout, Service, World, recent, operation_digest, validate_hosted_result,
  Answer,
}
use alzette.Billing.Checkout.{
  checkout_input, checkout_response, hosted_checkout, planned_checkout, prepared_checkout,
  create_checkout,
}

module _ {S : Type 0} (service : Service S) where
  -- The URL is an absolute one of the scheme https, without a user.
  abbrev pub IsHttps : String → Type 0
  IsHttps url =
      (u : Url) × (service.parse_url url ≡ some u)
      × (u.scheme ≡ "https")
      × ((u.host == "") ≡ false)
      × (u.has_user ≡ false)

  -- At most one customer is asked for, and then at most one checkout.
  abbrev pub IsOrder : List ProviderCall → Type 0
  IsOrder [] = Unit
  IsOrder (for_customer c ∷ []) = Unit
  IsOrder (for_checkout i ∷ []) = i.quantity ≡ 1
  IsOrder (for_checkout i ∷ for_customer c ∷ []) = i.quantity ≡ 1
  IsOrder _ = ⊥

  hosted-IsHttps :
      (hosted : HostedResult)
      → validate_hosted_result service.parse_url hosted ≡ true
      → IsHttps hosted.url
  unfolding validate_hosted_result
  hosted-IsHttps hosted h = elim (Option-cases (service.parse_url hosted.url)) [
    | inl n ↦ absurd (ground (arith, h, n))
    | inr (u, y) ↦ (
      u,
      y,
      ground (arith, h, y, eq_iff u.scheme "https"),
      ground (arith, h, y),
      ground (arith, h, y),
    )
  ]

module _ {S : Type 0} (service : Service S) (session : PortalSession) (rid key : String) where
  -- The store had the answer already: PrepareCheckout gave it for the digest of the key.
  abbrev pub IsExisting : World S → CheckoutResponse → Type 0
  IsExisting w r =
      (digest : Digest) × (operation_digest service.sha256 key ≡ some digest)
      × ((plan : CheckoutPlan) × ((service.store.prepare_checkout session rid digest
              (service.clock (suc w.ticks)) w.store).0
            ≡ ok (plan, some r)))

  -- An answer is the one that the store had, if the provider was not called; an answer after calls of
  -- the provider claims neither a payment nor readiness.
  abbrev pub Claims : World S → List ProviderCall → BillingError ⊎ CheckoutResponse → Type 0
  Claims w added (inl e) = Unit
  Claims w added (inr r) =
      ((added ≡ []) × IsExisting w r)
      ⊎ ((r.payment_confirmed ≡ false) × (r.runtime_ready ≡ false) × IsHttps service r.hosted_url)

  pub record IsCheckout (w : World S) (x : Answer service CheckoutResponse) : Type 0 where
    pub added : List ProviderCall
    pub calls : x.1.calls ≡ added ++ w.calls
    pub order : IsOrder service added
    pub claims : Claims w added x.0

  -- What happens after the calls `added`, in one of the branches.
  after_calls :
      (added : List ProviderCall) (w : World S) (x : Answer service CheckoutResponse)
      → x.1.calls ≡ added ++ w.calls
      → IsOrder service added
      → Claims w added x.0
      → IsCheckout w x
  after_calls added w x c o k = record { added = added; calls = c; order = o; claims = k }

  hosted_checkout-IsCheckout :
      (plan : CheckoutPlan) (now : Time) (before : List ProviderCall) (w v : World S)
      → v.calls ≡ before ++ w.calls
      → IsOrder service (for_checkout (checkout_input service plan) ∷ before)
      → IsCheckout w (hosted_checkout service session rid plan now v)
  unfolding hosted_checkout checkout_response
  hosted_checkout-IsCheckout plan now before w v e order =
      let input = checkout_input service plan in
      let calls : for_checkout input ∷ v.calls ≡ for_checkout input ∷ before ++ w.calls =
        rw (e) refl in
      elim (Sum-cases (service.provider.create_checkout (length v.calls) input)) [
        | inl (b, r) ↦
            rw (r, hosted_checkout) (after_calls (for_checkout input ∷ before) w _ calls order tt)
        | inr (hosted, r) ↦
            let s = service.store.complete_checkout session plan hosted now v.store in
            elim (Bool-cases (validate_hosted_result service.parse_url hosted)) [
              | inr n ↦
                  rw (r, n, hosted_checkout)
                    (after_calls (for_checkout input ∷ before) w _ calls order tt)
              | inl y ↦ elim (Result-cases s.0) [
                | inr (u, k) ↦
                    rw (r, y, k, hosted_checkout)
                      (after_calls (for_checkout input ∷ before) w _ calls order tt)
                | inl (u, k) ↦
                    rw (r, y, k, hosted_checkout)
                      (after_calls (for_checkout input ∷ before) w _ calls order
                        (inr (refl, refl, hosted-IsHttps service hosted y)))
              ]
            ]
      ]

  planned_checkout-IsCheckout :
      (plan : CheckoutPlan) (now : Time) (w v : World S)
      → v.calls ≡ w.calls
      → IsCheckout w (planned_checkout service session rid plan now v)
  unfolding planned_checkout
  planned_checkout-IsCheckout plan now w v e =
      let input : CustomerInput = record {
        organisation_id = plan.organisation_id;
        legal_name = plan.organisation_name;
        idempotency_key = String.◌++◌ "alzette-customer-" plan.organisation_id;
      } in
      let calls : for_customer input ∷ v.calls ≡ for_customer input ∷ w.calls = rw (e) refl in
      elim (Bool-cases (plan.provider_customer_ref == "")) [
        | inr n ↦ rw (n, planned_checkout) (hosted_checkout-IsCheckout plan now [] w v e refl)
        | inl y ↦ elim (Sum-cases (service.provider.ensure_customer (length v.calls) input)) [
          | inl (b, r) ↦
              rw (y, r, planned_checkout) (after_calls (for_customer input ∷ []) w _ calls tt tt)
          | inr (customer, r) ↦
              let s =
                service.store.set_billing_customer session customer.provider_customer_ref "stripe"
                  now v.store in
              elim (Result-cases s.0) [
                | inr (u, k) ↦
                    rw (y, r, k, planned_checkout)
                      (after_calls (for_customer input ∷ []) w _ calls tt tt)
                | inl (u, k) ↦
                    rw (y, r, k, planned_checkout)
                      (hosted_checkout-IsCheckout
                        (record plan { provider_customer_ref = customer.provider_customer_ref }) now
                        (for_customer input ∷ []) w _ calls refl)
              ]
        ]
      ]

  prepared_checkout-IsCheckout :
      (digest : String) (w v : World S)
      → v.calls ≡ w.calls
      → v.store ≡ w.store
      → v.ticks ≡ suc w.ticks
      → operation_digest service.sha256 key ≡ some digest
      → IsCheckout w (prepared_checkout service session rid digest v)
  unfolding prepared_checkout
  prepared_checkout-IsCheckout digest w v e stored ticked d =
      let now = service.clock v.ticks in
      elim (Result-cases (service.store.prepare_checkout session rid digest now v.store).0) [
        | inr (u, k) ↦ rw (k, prepared_checkout) (after_calls [] w _ e tt tt)
        | inl ((plan, existing), k) ↦ elim (Option-cases existing) [
          | inr (r, y) ↦
              rw (k, y, prepared_checkout)
                (after_calls [] w _ e tt (inl (refl, (digest, d, (plan, cc)))))
          | inl n ↦ rw (k, n, prepared_checkout) (planned_checkout-IsCheckout plan now w _ e)
        ]
      ]

  -- CreateCheckout asks the provider for at most one customer, and then for at most one checkout, of
  -- quantity 1. An answer that is no error is the one that PrepareCheckout of the store gave for the
  -- digest of the key, and then the provider is not called; or it claims neither that the payment is
  -- confirmed nor that the runtime is ready, and its URL is one of the scheme https with a host and
  -- without a user.
  pub create_checkout-IsCheckout :
      (w : World S) → IsCheckout w (create_checkout service session rid key w)
  unfolding create_checkout
  create_checkout-IsCheckout w =
      let P : Answer service CheckoutResponse → Type 0 = IsCheckout w in
      let now = service.clock w.ticks in
      let refused : (e : BillingError) (v : World S) → v.calls ≡ w.calls → P (inl e, v) =
        λ e v h. after_calls [] w (inl e, v) h tt tt in
      if_cases P (not (session.current.role == org_admin)) _ _ (refused _ _ refl) (
        if_cases P (not (recent session now)) _ _ (refused _ _ refl) (
          if_cases P (not service.provider.capability.configured) _ _ (refused _ _ refl)
            (elim (Option-cases (operation_digest service.sha256 key)) [
              | inl n ↦ rw (n) (refused _ _ refl)
              | inr (digest, d) ↦ rw (d) (prepared_checkout-IsCheckout digest w _ refl refl refl d)
            ])))
