-- ===== src/Provisioning/Plan.antt =====
-- validateServicePlan of validate.go.
use alzette.Shared.{
  String, len, ◌==◌, Bool, true, false, ◌&&◌, ◌||◌, not, Option, none, some, ltb, if◌then◌else◌,
}
use alzette.Shared.Int.{ℤ, pos, negsuc, is_neg}
use alzette.Shared.Space.{trim_space, has_part}
use alzette.Provisioning.Spec.{ProvisionSpec, is_slug, is_evidence}

abbrev pub is_none : Option ℤ → Bool
is_none none = true
is_none (some z) = false

unfoldable pub valid_period : String → Bool
valid_period value =
    value == "hour" || (value == "day" || (value == "month" || value == "contract_term"))

abbrev pub valid_allowance : Option ℤ → String → Bool
valid_allowance none period = period == ""
valid_allowance (some n) period = not (is_neg n) && valid_period period

abbrev pub is_positive : ℤ → Bool
is_positive (pos n) = ltb 0 n
is_positive (negsuc n) = false

abbrev pub valid_count : Option ℤ → Bool
valid_count none = true
valid_count (some n) = is_positive n

unfoldable pub validate_service_plan : ProvisionSpec → Bool
unfolding trim_space is_slug is_evidence has_part valid_period
validate_service_plan spec =
    if spec.service_plan_code == ""
    then spec.service_plan_name == ""
      && (is_none spec.shared_request_allowance
          && (is_none spec.shared_token_allowance
              && (spec.dedicated_resource_class == ""
                  && (is_none spec.dedicated_accelerator_count
                      && (spec.service_plan_source == "" && spec.service_plan_finality == "")))))
    else if not (is_slug spec.service_plan_code)
        || (trim_space spec.service_plan_name == "" || ltb 255 (len spec.service_plan_name))
    then false
    else if not (is_evidence spec.service_plan_source) || has_part spec.service_plan_source "://"
    then false
    else if not (spec.service_plan_finality == "declared")
        && not (spec.service_plan_finality == "unknown")
    then false
    else if spec.capacity_mode == "shared"
    then spec.dedicated_resource_class == ""
      && (is_none spec.dedicated_accelerator_count
          && (valid_allowance spec.shared_request_allowance spec.shared_request_allowance_period
              && valid_allowance spec.shared_token_allowance spec.shared_token_allowance_period))
    else (is_none spec.shared_request_allowance
        && (spec.shared_request_allowance_period == ""
            && (is_none spec.shared_token_allowance && spec.shared_token_allowance_period == "")))
      && ((spec.dedicated_resource_class == "" || is_evidence spec.dedicated_resource_class)
          && valid_count spec.dedicated_accelerator_count)
