-- ===== src/Gateway/Usage.antt =====
-- The usage that a provider reports: platformUsage and parseProviderUsage of gateway.go.
use alzette.Shared.{
  String, ◌==◌, Bool, true, false, ◌&&◌, ◌||◌, not, Option, none, some, if◌then◌else◌,
}
use alzette.Shared.Int.{ℤ, is_neg}
use alzette.Platform.{TokenUsage, no_usage}

-- time.Second
-- inference.Usage
pub record ReportedUsage : Type 0 where
  pub prompt_tokens : ℤ
  pub completion_tokens : ℤ
  pub total_tokens : ℤ
  pub cached_read_tokens : ℤ
  pub cached_write_tokens : ℤ
  pub cached_write_tokens_5m : ℤ
  pub cached_write_tokens_1h : ℤ
  pub reasoning_tokens : ℤ
  pub text_input_tokens : ℤ
  pub audio_input_tokens : ℤ
  pub image_input_tokens : ℤ
  pub finality : String
  pub has_prompt_tokens : Bool
  pub has_completion_tokens : Bool
  pub has_total_tokens : Bool
  pub has_prompt_details : Bool
  pub has_completion_details : Bool

-- inference.NormalizationVersion
abbrev pub normalization_version : String
normalization_version = "bifrost-core/v1.7.13"

abbrev pub when_has : Bool → ℤ → Option ℤ
when_has has value = if has then some value else none

unfoldable pub known_usage : ReportedUsage → TokenUsage
known_usage u = record {
  input_tokens = when_has u.has_prompt_tokens u.prompt_tokens;
  output_tokens = when_has u.has_completion_tokens u.completion_tokens;
  total_tokens = when_has u.has_total_tokens u.total_tokens;
  cached_tokens = when_has u.has_prompt_details u.cached_read_tokens;
  cached_write_tokens = when_has u.has_prompt_details u.cached_write_tokens;
  cached_write_tokens_5m = when_has u.has_prompt_details u.cached_write_tokens_5m;
  cached_write_tokens_1h = when_has u.has_prompt_details u.cached_write_tokens_1h;
  reasoning_tokens = when_has u.has_completion_details u.reasoning_tokens;
  text_input_tokens = when_has u.has_prompt_details u.text_input_tokens;
  audio_input_tokens = when_has u.has_prompt_details u.audio_input_tokens;
  image_input_tokens = when_has u.has_prompt_details u.image_input_tokens;
  normalization = normalization_version;
}

abbrev pub is_absent : Option ℤ → Bool
is_absent none = true
is_absent (some z) = false

unfoldable pub is_unknown : TokenUsage → Bool
is_unknown u =
    is_absent u.input_tokens
    && (is_absent u.output_tokens
        && (is_absent u.total_tokens
            && (is_absent u.cached_tokens
                && (is_absent u.cached_write_tokens
                    && (is_absent u.reasoning_tokens
                        && (is_absent u.text_input_tokens
                            && (is_absent u.audio_input_tokens
                                && is_absent u.image_input_tokens)))))))

unfoldable pub platform_usage : Option ReportedUsage → String → TokenUsage × String
unfolding known_usage is_unknown
platform_usage none known_finality = (no_usage, "unknown")
platform_usage (some u) known_finality =
    if is_unknown (known_usage u)
    then (no_usage, "unknown")
    else (known_usage u, if u.finality == "" then known_finality else u.finality)

-- providerUsage: a nested details object is absent, or has its counter or not.
pub record ProviderUsage : Type 0 where
  pub prompt_tokens : Option ℤ
  pub completion_tokens : Option ℤ
  pub cached_tokens : Option ℤ
  pub reasoning_tokens : Option ℤ
  pub prompt_tokens_details : Option (Option ℤ)
  pub completion_tokens_details : Option (Option ℤ)

-- The counter itself or, where it is absent, the one of the details.
abbrev pub or_detail : Option ℤ → Option (Option ℤ) → Option ℤ
or_detail (some z) details = some z
or_detail none none = none
or_detail none (some detail) = detail

abbrev pub is_negative : Option ℤ → Bool
is_negative none = false
is_negative (some z) = is_neg z

unfoldable pub finality_of : TokenUsage → String
finality_of u =
    if not (is_absent u.input_tokens) && not (is_absent u.output_tokens)
    then "final"
    else if not (is_absent u.input_tokens)
        || (not (is_absent u.output_tokens)
            || (not (is_absent u.cached_tokens) || not (is_absent u.reasoning_tokens)))
    then "partial"
    else "unknown"

-- `none` is the error "negative usage".
unfoldable pub parse_provider_usage : Option ProviderUsage → Option (TokenUsage × String)
unfolding finality_of
parse_provider_usage none = some (no_usage, "unknown")
parse_provider_usage (some r) =
    let usage = record no_usage {
      input_tokens = r.prompt_tokens;
      output_tokens = r.completion_tokens;
      cached_tokens = or_detail r.cached_tokens r.prompt_tokens_details;
      reasoning_tokens = or_detail r.reasoning_tokens r.completion_tokens_details;
    } in
    if is_negative usage.input_tokens
      || (is_negative usage.output_tokens
          || (is_negative usage.cached_tokens || is_negative usage.reasoning_tokens))
    then none
    else some (usage, finality_of usage)
