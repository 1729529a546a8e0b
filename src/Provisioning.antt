-- ===== src/Provisioning.antt =====
-- internal/provisioning/validate.go, and ProvisionSpec and RotateKeySpec of
-- internal/platform/types.go. A timeout and a number of attempts are natural numbers: the source
-- refuses a negative one as it refuses 0. `parse_url` is url.Parse. Every refusal is ErrInvalid.
pub mod Spec
pub mod Plan
pub mod Scopes
pub mod Accepted
use Prim.Native.Char.{Char, code}
use alzette.Shared.{
  ℕ, ◌*◌, String, len, ◌==◌, Bool, true, false, ◌&&◌, ◌||◌, not, Option, none, some, List, [], ◌∷◌,
  ltb, leb, eqb, contains, if◌then◌else◌,
}
use alzette.Shared.Int.{ℤ, pos, negsuc, is_neg}
use alzette.Shared.Space.{trim_space, trim_right, has_part, is_word}
use alzette.Platform.{Duration, Result, ok, err, invalid}
use Spec.{
  ProvisionSpec, RotateKeySpec, Url, is_slug, is_alias, is_secret_ref, is_evidence, is_name,
  is_char,
}
use Plan.{validate_service_plan, valid_period}
use Scopes.{validate_scopes}

unfoldable pub trimmed : ProvisionSpec → ProvisionSpec
unfolding trim_space
trimmed spec = record spec {
  organisation_name = trim_space spec.organisation_name;
  project_name = trim_space spec.project_name;
  environment_name = trim_space spec.environment_name;
  service_account = trim_space spec.service_account;
  target_name = trim_space spec.target_name;
  provider_model = trim_space spec.provider_model;
  model_version = trim_space spec.model_version;
}

unfoldable pub valid_names : ProvisionSpec → Bool
valid_names spec =
    is_slug spec.organisation_slug
    && (is_slug spec.project_slug
        && (is_slug spec.environment_slug
            && (is_name spec.organisation_name
                && (is_name spec.project_name
                    && (is_name spec.environment_name
                        && (is_name spec.service_account
                            && (is_name spec.target_name
                                && (is_name spec.provider_model
                                    && (is_name spec.model_version
                                        && is_alias spec.model_alias)))))))))

-- The execution class, the mode of capacity, its evidence and the reference of the secret.
unfoldable pub valid_capacity : ProvisionSpec → Bool
unfolding is_evidence has_part
valid_capacity spec =
    (spec.execution_class == "external_pilot" || spec.execution_class == "private_compatible")
    && ((spec.capacity_mode == "shared" || spec.capacity_mode == "dedicated")
        && (not (spec.execution_class == "external_pilot" && not (spec.capacity_mode == "shared"))
            && ((if spec.capacity_mode == "dedicated"
                  then is_evidence spec.capacity_evidence_ref
                    && not (has_part spec.capacity_evidence_ref "://")
                  else spec.capacity_evidence_ref == "")
                && is_secret_ref spec.secret_ref)))

-- `none` where the URL is refused, or else the URL without slashes at its end.
unfoldable pub target_url : (String → Option Url) → Bool → String → Option String
unfolding has_part trim_right
target_url parse_url insecure value = elim (parse_url value) [
  | none ↦ none
  | some u ↦
      if u.host == ""
        || (u.has_user
            || (not (u.raw_query == "") || (not (u.fragment == "") || has_part u.escaped_path "%")))
      then none
      else if not (u.scheme == "https") && not (insecure && u.scheme == "http")
      then none
      else some (trim_right (λ c. is_char b'/' c) u.text)
]

abbrev pub millisecond : ℕ
millisecond = 1000000

abbrev pub second : ℕ
second = 1000000000

unfoldable pub valid_limits : ProvisionSpec → Bool
valid_limits spec =
    (leb (100 * millisecond) spec.target_timeout && leb spec.target_timeout (60 * second))
    && (leb 1 spec.max_attempts && leb spec.max_attempts 4)

-- The interval, or five minutes for 0; `none` where it is refused.
unfoldable pub probe_interval_of : ℤ → Option ℤ
probe_interval_of (negsuc n) = none
probe_interval_of (pos n) =
    let interval = if eqb n 0 then 300 * second else n in
    if leb (30 * second) interval && leb interval (86400 * second)
    then some (pos interval)
    else none

-- Validate, where the names and the capacity are accepted.
unfoldable pub validate_rest : (String → Option Url) → Bool → ProvisionSpec → Result ProvisionSpec
unfolding target_url valid_limits probe_interval_of validate_service_plan validate_scopes
validate_rest parse_url insecure spec = elim (target_url parse_url insecure spec.target_base_url) [
  | none ↦ err invalid
  | some url ↦
      if not (valid_limits spec)
      then err invalid
      else elim (probe_interval_of spec.probe_interval) [
        | none ↦ err invalid
        | some interval ↦
            if not (validate_service_plan spec)
            then err invalid
            else elim (validate_scopes spec.scopes) [
              | none ↦ err invalid
              | some scopes ↦ ok (record spec {
                target_base_url = url;
                probe_interval = interval;
                scopes = scopes;
              })
            ]
      ]
]

unfoldable pub validate_spec : (String → Option Url) → Bool → ProvisionSpec → Result ProvisionSpec
unfolding trimmed valid_names valid_capacity validate_rest
validate_spec parse_url insecure spec =
    if not (valid_names (trimmed spec)) || not (valid_capacity (trimmed spec))
    then err invalid
    else validate_rest parse_url insecure (trimmed spec)

-- The specification that ValidateRotate has checked.
unfoldable pub rotation_spec : RotateKeySpec → ProvisionSpec
rotation_spec spec = record {
  organisation_name = "validation";
  organisation_slug = spec.organisation_slug;
  project_name = "validation";
  project_slug = spec.project_slug;
  environment_name = "validation";
  environment_slug = spec.environment_slug;
  model_alias = "validation";
  model_version = "validation";
  target_name = "validation";
  execution_class = "external_pilot";
  capacity_mode = "shared";
  capacity_evidence_ref = "";
  target_base_url = "https://validation.invalid/v1";
  provider_model = "validation";
  secret_ref = "VALIDATION_SECRET";
  target_timeout = second;
  max_attempts = 1;
  probe_enabled = false;
  probe_interval = pos 0;
  service_account = spec.service_account;
  scopes = spec.scopes;
  service_plan_code = "";
  service_plan_name = "";
  shared_request_allowance = none;
  shared_request_allowance_period = "";
  shared_token_allowance = none;
  shared_token_allowance_period = "";
  dedicated_resource_class = "";
  dedicated_accelerator_count = none;
  service_plan_source = "";
  service_plan_finality = "";
}

unfoldable pub validate_rotate : (String → Option Url) → RotateKeySpec → Result RotateKeySpec
unfolding is_slug trim_space validate_spec rotation_spec
validate_rotate parse_url spec =
    if not (is_slug spec.organisation_slug)
      || (not (is_slug spec.project_slug) || not (is_slug spec.environment_slug))
    then err invalid
    else if trim_space spec.service_account == ""
    then err invalid
    else elim (validate_spec parse_url false (rotation_spec spec)) [
      | err e ↦ err e
      | ok v ↦ ok (record spec { service_account = v.service_account; scopes = v.scopes })
    ]
