-- ===== src/Endpoints/Input.antt =====
-- endpoints.go: the checks of what a customer asks for, and its normal form.
use alzette.Shared.{
  ℕ, String, len, ◌==◌, Bool, true, false, ◌&&◌, ◌||◌, not, Option, none, some, ltb, leb,
  if◌then◌else◌,
}
use alzette.Shared.Int.{ℤ, pos, negsuc}
use alzette.Shared.Space.{trim_space, has_part}
use alzette.Platform.{Digest}
use alzette.Provisioning.Spec.{is_slug, is_alias}
use alzette.Endpoints.Types.{Workload, CreateInput, PatchInput}

unfoldable pub idempotency_digest : (String → Digest) → String → Option Digest
unfolding trim_space has_part
idempotency_digest sha256 value =
    if ltb (len value) 8
      || (ltb 128 (len value)
          || (not (trim_space value == value)
              || (has_part value "\r" || (has_part value "\n" || has_part value "\0"))))
    then none
    else some (sha256 value)

unfoldable pub valid_id : String → Bool
unfolding has_part
valid_id value =
    (leb 8 (len value) && leb (len value) 192)
    && not (
        has_part value "/"
        || (has_part value "\\"
            || (has_part value "\0" || (has_part value "\r" || has_part value "\n"))))

-- lo <= z && z <= hi
unfoldable pub between : ℕ → ℕ → ℤ → Bool
between lo hi (pos n) = leb lo n && leb n hi
between lo hi (negsuc n) = false

-- An absent value passes.
unfoldable pub optional_between : ℕ → ℕ → Option ℤ → Bool
unfolding between
optional_between lo hi none = true
optional_between lo hi (some z) = between lo hi z

unfoldable pub is_priority : Option String → Bool
is_priority none = true
is_priority (some s) = s == "balanced" || (s == "latency" || s == "throughput")

unfoldable pub validate_workload : Workload → Bool
unfolding optional_between is_priority
validate_workload w =
    leb (len w.use_case) 2000
    && (optional_between 1 10000000 w.expected_context_tokens
        && (optional_between 1 10000 w.expected_concurrency
            && (optional_between 1 10000000 w.expected_requests_per_minute
                && (optional_between 1 1000000000000 w.expected_monthly_requests
                    && (optional_between 1 10000 w.expected_user_count
                        && is_priority w.latency_priority)))))

unfoldable pub normalize_priority : (String → String) → Option String → Option String
unfolding trim_space
normalize_priority lower none = none
normalize_priority lower (some s) =
    let priority = lower (trim_space s) in if priority == "" then none else some priority

unfoldable pub normalize_workload : (String → String) → Workload → Workload
unfolding trim_space normalize_priority
normalize_workload lower w = record w {
  use_case = trim_space w.use_case;
  latency_priority = normalize_priority lower w.latency_priority;
}

unfoldable pub normalize_create : (String → String) → CreateInput → CreateInput
unfolding trim_space normalize_workload
normalize_create lower input = record input {
  model_slug = trim_space (lower input.model_slug);
  service_mode = trim_space (lower input.service_mode);
  offer_code = trim_space (lower input.offer_code);
  profile_code = trim_space (lower input.profile_code);
  endpoint_alias = trim_space input.endpoint_alias;
  workload = normalize_workload lower input.workload;
}

-- A selection that the operator manages names a mode and nothing else.
unfoldable pub valid_managed : CreateInput → Bool
valid_managed input =
    let is_zero : Bool = elim input.capacity_units [ pos n ↦ leb n 0 | negsuc n ↦ false ] in
    let counts_users : Bool = elim input.workload.expected_user_count [
      | none ↦ false
      | some n ↦ true
    ] in
    (input.service_mode == "shared" || input.service_mode == "dedicated")
    && (input.offer_code == ""
        && (input.profile_code == "" && (input.endpoint_alias == "" && (is_zero && counts_users))))

unfoldable pub valid_custom : CreateInput → Bool
unfolding is_slug is_alias between
valid_custom input =
    is_slug input.offer_code
    && (is_slug input.profile_code
        && (is_alias input.endpoint_alias && between 1 128 input.capacity_units))

unfoldable pub valid_create : CreateInput → Bool
unfolding is_slug validate_workload valid_managed valid_custom
valid_create input =
    (is_slug input.model_slug && validate_workload input.workload)
    && (if not (input.service_mode == "") then valid_managed input else valid_custom input)

-- A change changes something, and keeps to the bounds.
unfoldable pub valid_patch : PatchInput → Bool
unfolding optional_between validate_workload
valid_patch input =
    let is_empty : Bool = elim input.capacity_units [
      | none ↦ elim input.workload [ none ↦ true | some w ↦ false ]
      | some n ↦ false
    ] in
    let valid_change : Bool = elim input.workload [ none ↦ true | some w ↦ validate_workload w ] in
    not is_empty && (optional_between 1 128 input.capacity_units && valid_change)
