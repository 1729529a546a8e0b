-- ===== src/Tests/Tenants.antt =====
-- Provisioning, a rotation and the credential of a request, on the tenant of the fixtures.
use alzette.Shared.{
  String, ◌==◌, ◌≡◌, refl, true, false, Option, none, some, [], ◌∷◌, if◌then◌else◌,
}
use alzette.Shared.Int.{pos}
use alzette.Platform.{ok, scope_inference_write}
use alzette.Credentials.{Key}
use alzette.Provisioning.{validate_spec}
use alzette.Provisioning.Spec.{ProvisionSpec, RotateKeySpec, Url, is_alias, is_secret_ref}
use alzette.Shared.Sort.{sort}
use alzette.Shared.Dict.{get, put}
use alzette.Provisioning.Accepted.{IsAccepted, validate_spec-IsAccepted}
use alzette.Memory.Defs.{
  find_organisation, find_project, find_environment, find_service_account, find_model, find_target,
  find_route, active_key_for_account,
}
use alzette.Memory.Access.{authenticate}
use alzette.Memory.Provision.{ProvisionResult, provision}
use alzette.Memory.Provision.Keys.{KeyResult, rotate_key}
use alzette.Memory.Provision.Outcome.{IsProvisioned, provision-IsProvisioned}
use alzette.Memory.Provision.Rotation.{Rotated, rotate_key-Rotated}
use alzette.Gateway.Reply.{chat}
use alzette.Gateway.Auth.{authenticate_protocol}
use alzette.Gateway.Auth.Vouched.{IsVouched, authenticate_protocol-IsVouched}
use alzette.Tests.Fixtures.{shop, caller, digest_of, post}

abbrev parse : String → Option Url
parse value = some (record {
  scheme = "https";
  host = "validation.invalid";
  has_user = false;
  raw_query = "";
  fragment = "";
  escaped_path = "/v1";
  text = value;
})

abbrev draw : String → Option String
draw prefix = if prefix == "key" then some "key_new" else some "id_new"

abbrev fresh_key : Key
fresh_key = record { token = "alz_k_new"; prefix = "alz_k_n"; digest = "digest_2" }

abbrev rotation : RotateKeySpec
rotation = record {
  organisation_slug = "acme";
  project_slug = "web";
  environment_slug = "production";
  service_account = " backend ";
  scopes = scope_inference_write ∷ [];
}

abbrev renewed : KeyResult
renewed = record {
  key_prefix = "alz_k_n";
  api_key = "alz_k_new";
  scopes = scope_inference_write ∷ [];
}

abbrev plan : ProvisionSpec
plan = record {
  organisation_name = "Acme";
  organisation_slug = "acme";
  project_name = "Web";
  project_slug = "web";
  environment_name = "Staging";
  environment_slug = "staging";
  model_alias = "general";
  model_version = "1";
  target_name = "secondary";
  execution_class = "private_compatible";
  capacity_mode = "dedicated";
  capacity_evidence_ref = "contract/7";
  target_base_url = "https://validation.invalid/v1/";
  provider_model = "provider-model";
  secret_ref = "PROVIDER_KEY";
  target_timeout = 30000000000;
  max_attempts = 3;
  probe_enabled = true;
  probe_interval = pos 0;
  service_account = "backend";
  scopes = scope_inference_write ∷ [];
  service_plan_code = "";
  service_plan_name = "";
  shared_request_allowance = none;
  shared_request_allowance_period = "";
  shared_token_allowance = none;
  shared_token_allowance_period = "";
  dedicated_resource_class = "";
  dedicated_accelerator_count = none;
  service_plan_source = "";
  service_plan_finality = "";
}

abbrev settled_plan : ProvisionSpec
settled_plan = record plan {
  target_base_url = "https://validation.invalid/v1";
  probe_interval = pos 300000000000;
}

abbrev provided : ProvisionResult
provided = record {
  organisation_id = "org_1";
  project_id = "project_1";
  environment_id = "id_new";
  route_id = "id_new";
  target_id = "id_new";
  service_account_id = "id_new";
  key_prefix = "alz_k_n";
  api_key = "alz_k_new";
  key_created = true;
  scopes = scope_inference_write ∷ [];
}

provisioned_lem : (provision draw parse (some fresh_key) plan shop).0 ≡ ok provided
unfolding provision validate_spec is_alias is_secret_ref find_organisation find_project
    find_environment find_model find_target find_route find_service_account active_key_for_account
    sort get put
provisioned_lem = refl

provision-IsProvisioned_example :
    (spec : ProvisionSpec) × (validate_spec parse true plan ≡ ok spec)
    × IsProvisioned shop
        (some fresh_key)
        spec
        provided
        (provision draw parse (some fresh_key) plan shop).1
provision-IsProvisioned_example =
    provision-IsProvisioned draw parse (some fresh_key) plan shop provided provisioned_lem

renewed_lem : (rotate_key draw parse (some fresh_key) rotation shop).0 ≡ ok renewed
unfolding rotate_key is_alias is_secret_ref find_organisation find_project find_environment
    find_service_account sort get put
renewed_lem = refl

rotate_key-Rotated_example :
    Rotated draw parse
      (some fresh_key)
      rotation
      shop
      (rotate_key draw parse (some fresh_key) rotation shop).1
      renewed
rotate_key-Rotated_example =
    rotate_key-Rotated draw parse (some fresh_key) rotation shop renewed renewed_lem

settled_lem : validate_spec parse true plan ≡ ok settled_plan
unfolding validate_spec is_alias is_secret_ref sort
settled_lem = refl

validate_spec-IsAccepted_example : IsAccepted settled_plan
validate_spec-IsAccepted_example = validate_spec-IsAccepted parse true plan settled_plan settled_lem

known_lem :
    authenticate_protocol digest_of.sha256 (λ d. authenticate d shop) none post.headers chat
    ≡ ok caller
unfolding authenticate_protocol authenticate get
known_lem = refl

authenticate_protocol-IsVouched_example :
    IsVouched digest_of.sha256 (λ d. authenticate d shop) none post.headers chat caller
authenticate_protocol-IsVouched_example =
    authenticate_protocol-IsVouched digest_of.sha256 (λ d. authenticate d shop) none post.headers
      chat caller known_lem
