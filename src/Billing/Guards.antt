-- ===== src/Billing/Guards.antt =====
-- Who may ask for a checkout of billing.go.
use alzette.Shared.{
  ◌+◌, ◌≤◌, ◌<◌, ◌==◌, eq_iff, String, ◌≡◌, ◌⊎◌, inl, inr, refl, true, arith, Bool-cases,
}
use alzette.Platform.{Time}
use alzette.Platform.Portal.{PortalSession, org_admin}
use alzette.Billing.{BillingError, Service, World, recent, recent_window, Answer}
use alzette.Billing.Checkout.{prepared_checkout, guarded, create_checkout}

-- The session is an administrator's of the organisation, and its person was authenticated at most 15
-- minutes before.
pub record MayPay (session : PortalSession) (now : Time) : Type 0 where
  pub role : session.current.role ≡ org_admin
  pub known : 0 < session.authenticated_at
  pub before : session.authenticated_at ≤ now
  pub within : now ≤ session.authenticated_at + recent_window

module _ {S : Type 0} (service : Service S) where
  -- An error, with neither the store nor the provider touched.
  abbrev pub IsRefused {ℓ} : {A : Type ℓ} → World S → Answer service A → Type ℓ
  IsRefused {A = A} w x =
      ((e : BillingError) × (x.0 ≡ inl e)) × (x.1.store ≡ w.store) × (x.1.calls ≡ w.calls)

  recent-MayPay :
      (session : PortalSession) (now : Time)
      → (session.current.role == org_admin) ≡ true
      → recent session now ≡ true
      → MayPay session now
  unfolding recent
  recent-MayPay session now r h = record {
    role = (eq_iff session.current.role org_admin).0 r;
    known = ground (arith, h);
    before = ground (arith, h);
    within = ground (arith, h);
  }

  guarded-MayPay {ℓ} :
      {A : Type ℓ} (session : PortalSession) (key : String) (w : World S)
      (next : String → World S → Answer service A)
      → IsRefused w (guarded service session key w next)
        ⊎ (MayPay session (service.clock w.ticks) × (service.provider.capability.configured ≡ true))
  guarded-MayPay session key w next = elim (Bool-cases (session.current.role == org_admin)) [
    | inr n ↦ rw (n) (inl ((_, refl), refl, refl))
    | inl y ↦ elim (Bool-cases (recent session (service.clock w.ticks))) [
      | inr n ↦ rw (y, n) (inl ((_, refl), refl, refl))
      | inl z ↦ elim (Bool-cases service.provider.capability.configured) [
        | inr n ↦ rw (y, z, n) (inl ((_, refl), refl, refl))
        | inl c ↦ inr (recent-MayPay session _ y z, c)
      ]
    ]
  ]

  -- CreateCheckout is refused with neither the store nor the provider touched, or the session is an
  -- administrator's of the organisation who was authenticated at most 15 minutes before, and the
  -- provider is configured.
  pub create_checkout-MayPay :
      (session : PortalSession) (requirement_id key : String) (w : World S)
      → IsRefused w (create_checkout service session requirement_id key w)
        ⊎ (MayPay session (service.clock w.ticks) × (service.provider.capability.configured ≡ true))
  unfolding create_checkout
  create_checkout-MayPay session requirement_id key w =
      guarded-MayPay session key w (prepared_checkout service session requirement_id)
