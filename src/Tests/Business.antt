-- ===== src/Tests/Business.antt =====
-- Billing, endpoints and the worker at work: an administrator of one organisation, and two targets, of
-- which one has no credential.
use alzette.Shared.{
  ℕ, ◌+◌, String, ◌==◌, ◌≡◌, ◌⊎◌, inr, refl, true, false, Option, none, some, List, [], ◌∷◌, ◌++◌,
  length,
}
use alzette.Shared.Int.{pos}
use alzette.Shared.Space.{trim_space, has_part}
use alzette.Platform.{Digest, ok, err, not_found}
use alzette.Platform.Portal.{PortalMembership, PortalSession, ProbeTarget, ProbeObservation}
use alzette.Platform.Portal.{org_admin, project_admin}
use alzette.Provisioning.Spec.{Url}
use alzette.Billing.{CheckoutPlan, Service, World, HostedResult}
use alzette.Billing.Checkout.{create_checkout}
use alzette.Billing.Guards.{MayPay, IsRefused, create_checkout-MayPay}
use alzette.Billing.Safety.{IsCheckout, create_checkout-IsCheckout}
use alzette.Worker.{Worker, response, run_once, World as WorkerWorld}
use alzette.Worker.Rounds.{Observes, run_once-Observes}
use alzette.Endpoints.{passed, create, accept_quote, Service as EndpointService}
use alzette.Endpoints.Types.{CreateInput}
use alzette.Endpoints.Input.{normalize_create, idempotency_digest}
use alzette.Endpoints.Accepted.{
  IsAccepted, IsNotOld, MayNotAccept, create-IsAccepted, accept_quote-IsRecent,
  IsRefused as IsTurnedDown,
}

abbrev membership : PortalMembership
membership = record {
  id = "membership_1";
  organisation_id = "org_1";
  organisation_name = "Acme";
  organisation_slug = "acme";
  project_id = "project_1";
  project_name = "Web";
  project_slug = "web";
  environment_id = "env_1";
  environment_name = "Production";
  environment_slug = "production";
  role = "org_admin";
}

abbrev pub session : PortalSession
session = record {
  id = "session_1";
  user = record { id = "user_1"; username = "ada"; display_name = "Ada" };
  current = membership;
  memberships = membership ∷ [];
  authenticated_at = 1000;
  expires_at = 100000;
}

abbrev plan : CheckoutPlan
plan = record {
  organisation_id = "org_1";
  organisation_name = "Acme";
  endpoint_id = "endpoint_1";
  payment_requirement_id = "requirement_1";
  provider = "fake";
  provider_customer_ref = "";
  provider_price_ref = "price_1";
  mode = "subscription";
  operation_id = "operation_1";
  operation_key = "operation-key";
}

abbrev parse : String → Option Url
parse value = some (record {
  scheme = "https";
  host = "checkout.example";
  has_user = false;
  raw_query = "";
  fragment = "";
  escaped_path = "";
  text = value;
})

abbrev hosted : HostedResult
hosted = record {
  provider_session_ref = "cs_1";
  url = "https://checkout.example";
  expires_at = 9000;
  provider_request_id = "req_1";
}

-- A store of payments that counts its writes.
abbrev billing : Service ℕ
billing = record {
  store = record {
    prepare_checkout = λ session id digest now n. (ok (plan, none), n + 1);
    set_billing_customer = λ session ref provider now n. (ok tt, n + 1);
    complete_checkout = λ session plan result now n. (ok tt, n + 1);
    prepare_billing_portal = λ session digest now n. (err not_found, n);
  };
  provider = record {
    capability = record {
      configured = true;
      provider = "fake";
      mode = "hosted_checkout";
      detail = "";
    };
    ensure_customer =
        λ n input. inr (record { provider_customer_ref = "cus_1"; provider_request_id = "req_0" });
    create_checkout = λ n input. inr hosted;
    create_customer_portal = λ n input. inr hosted;
  };
  clock = λ n. 2000 + n;
  success_url = "https://portal.example/ok";
  cancel_url = "https://portal.example/no";
  return_url = "https://portal.example";
  sha256 = λ key. key;
  parse_url = parse;
}

abbrev nothing_paid : World ℕ
nothing_paid = record { store = 0; ticks = 0; calls = [] }

create_checkout-MayPay_example :
    IsRefused billing nothing_paid
      (create_checkout billing session "requirement_1" "key-12345" nothing_paid)
    ⊎ (MayPay session 2000 × (billing.provider.capability.configured ≡ true))
create_checkout-MayPay_example =
    create_checkout-MayPay billing session "requirement_1" "key-12345" nothing_paid

create_checkout-IsCheckout_example :
    IsCheckout billing session "requirement_1" "key-12345" nothing_paid
      (create_checkout billing session "requirement_1" "key-12345" nothing_paid)
create_checkout-IsCheckout_example =
    create_checkout-IsCheckout billing session "requirement_1" "key-12345" nothing_paid

-- A customer and a checkout are asked for, and three writes are made.
create_checkout_test :
    let x = create_checkout billing session "requirement_1" "key-12345" nothing_paid in
    (x.1.store ≡ 3) × (length x.1.calls ≡ 2)
unfolding create_checkout trim_space has_part
create_checkout_test = (refl, refl)

abbrev probed : String → ProbeTarget
probed id = record {
  id = id;
  base_url = "https://provider.example";
  secret_ref = id;
  provider_model = "provider-model";
  timeout = pos 0;
  probe_interval = 60;
}

abbrev prober : Worker ℕ
prober = record {
  store = record {
    refresh_usage_rollups = λ from to now n. (ok (pos 0), n + 1);
    list_probe_targets = λ now n. (ok (probed "target_1" ∷ probed "target_2" ∷ []), n);
    record_probe_observation = λ o n. (ok tt, n + 1);
  };
  clock = λ n. 5000;
  new_id = λ n. some "obs_1";
  rollup_interval = 60000000000;
  rollup_lookback = 0;
  probes_enabled = true;
  allow_insecure_targets = false;
  allowed_secret_refs = λ ref. ref == "target_1";
  secret_lookup = λ ref. some "secret";
  parse_url = λ value. some (record {
    scheme = "https";
    host = value;
    has_user = false;
    raw_query = "";
    fragment = "";
    path = "/v1/";
  });
  url_text = λ u. u.path;
  send = λ n request. response 200 (some "body");
  latency = λ n. 7;
  decode = λ body. some (record { id = "1"; model = "provider-model"; roles = "assistant" ∷ [] });
}

abbrev idle : WorkerWorld ℕ
idle = record { store = 0; ticks = 0; draws = 0; sends = 0; observed = [] }

run_once_ok : (run_once prober idle).0 ≡ ok tt
unfolding run_once
run_once_ok = refl

run_once-Observes_example :
    (os : List ProbeObservation) × Observes 5000 (probed "target_1" ∷ probed "target_2" ∷ []) os
    × ((run_once prober idle).1.observed ≡ [] ++ os)
run_once-Observes_example =
    run_once-Observes prober idle (probed "target_1" ∷ probed "target_2" ∷ []) refl refl run_once_ok

abbrev wish : CreateInput
wish = record {
  model_slug = "general";
  service_mode = "shared";
  offer_code = "";
  profile_code = "";
  endpoint_alias = "";
  capacity_units = pos 0;
  workload = record {
    use_case = "chat";
    expected_context_tokens = none;
    expected_concurrency = none;
    expected_requests_per_minute = none;
    latency_priority = none;
    expected_monthly_requests = none;
    expected_user_count = some (pos 20);
  };
}

abbrev endpoints : EndpointService ℕ
endpoints = record {
  store = record {
    list_customer_endpoints = λ session n. ok [];
    get_customer_endpoint = λ session id n. err not_found;
    create_endpoint_configuration = λ session input digest n. (err not_found, n + 1);
    update_endpoint_configuration = λ session id input n. (err not_found, n);
    submit_endpoint_configuration = λ session id digest now n. (err not_found, n);
    get_deployment_request = λ session id n. err not_found;
    get_deployment_quote = λ session id n. err not_found;
    accept_deployment_quote = λ session id digest now n. (err not_found, n + 1);
    create_capacity_request = λ session id units workload digest now n. (err not_found, n);
    get_endpoint_configuration = none;
  };
  now = 2000;
  sha256 = λ key. key;
  lower = λ s. s;
}

create-IsAccepted_example :
    let x = create endpoints session wish "key-12345" 0 in
    let normal = normalize_create endpoints.lower wish in
    IsTurnedDown endpoints 0 x
    ⊎ (((session.current.role ≡ org_admin) ⊎ (session.current.role ≡ project_admin))
        × IsAccepted normal
        × ((digest : Digest) × (idempotency_digest endpoints.sha256 "key-12345" ≡ some digest)
            × (x ≡ passed (endpoints.store.create_endpoint_configuration session normal digest 0))))
create-IsAccepted_example = create-IsAccepted endpoints session wish "key-12345" 0

accept_quote-IsRecent_example :
    let x = accept_quote endpoints session "quote_123" "key-12345" 0 in
    (IsTurnedDown endpoints 0 x × MayNotAccept endpoints session "key-12345")
    ⊎ ((session.current.role ≡ org_admin)
        × IsNotOld endpoints session
        × ((digest : Digest) × (idempotency_digest endpoints.sha256 "key-12345" ≡ some digest)
            × (x
                ≡ passed
                    (endpoints.store.accept_deployment_quote session "quote_123" digest 2000 0))))
accept_quote-IsRecent_example = accept_quote-IsRecent endpoints session "quote_123" "key-12345" 0
