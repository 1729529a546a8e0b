-- ===== src/Provisioning/Spec.antt =====
-- ProvisionSpec and RotateKeySpec of internal/platform/types.go, and the patterns of validate.go.
use Prim.Native.Char.{Char, code}
use alzette.Shared.{ℕ, String, len, ◌==◌, Bool, ◌&&◌, ◌||◌, not, Option, List, leb, eqb}
use alzette.Shared.Int.{ℤ}
use alzette.Shared.Space.{is_word}
use alzette.Platform.{Duration}

pub record ProvisionSpec : Type 0 where
  pub organisation_name : String
  pub organisation_slug : String
  pub project_name : String
  pub project_slug : String
  pub environment_name : String
  pub environment_slug : String
  pub model_alias : String
  pub model_version : String
  pub target_name : String
  pub execution_class : String
  pub capacity_mode : String
  pub capacity_evidence_ref : String
  pub target_base_url : String
  pub provider_model : String
  pub secret_ref : String
  pub target_timeout : Duration
  pub max_attempts : ℕ
  pub probe_enabled : Bool
  pub probe_interval : ℤ
  pub service_account : String
  pub scopes : List String
  pub service_plan_code : String
  pub service_plan_name : String
  pub shared_request_allowance : Option ℤ
  pub shared_request_allowance_period : String
  pub shared_token_allowance : Option ℤ
  pub shared_token_allowance_period : String
  pub dedicated_resource_class : String
  pub dedicated_accelerator_count : Option ℤ
  pub service_plan_source : String
  pub service_plan_finality : String

pub record RotateKeySpec : Type 0 where
  pub organisation_slug : String
  pub project_slug : String
  pub environment_slug : String
  pub service_account : String
  pub scopes : List String

-- What validation reads of a parsed URL; `text` is its String().
pub record Url : Type 0 where
  pub scheme : String
  pub host : String
  pub has_user : Bool
  pub raw_query : String
  pub fragment : String
  pub escaped_path : String
  pub text : String

abbrev pub between : ℕ → ℕ → Char → Bool
between a b c = leb a (code c) && leb (code c) b

abbrev pub is_lower : Char → Bool
is_lower = between b'a' b'z'

abbrev pub is_upper : Char → Bool
is_upper = between b'A' b'Z'

abbrev pub is_digit : Char → Bool
is_digit = between b'0' b'9'

abbrev pub is_char : ℕ → Char → Bool
is_char n c = eqb (code c) n

abbrev pub is_alphanumeric : Char → Bool
is_alphanumeric c = is_upper c || (is_lower c || is_digit c)

unfoldable pub is_slug : String → Bool
unfolding is_word
is_slug =
    is_word (λ c. is_lower c || is_digit c) (λ c. is_lower c || (is_digit c || is_char b'-' c)) 62

unfoldable pub is_alias : String → Bool
unfolding is_word
is_alias =
    is_word is_alphanumeric
      (λ c.
        is_alphanumeric c
        || (is_char b'.' c || (is_char b'_' c || (is_char b':' c || is_char b'-' c))))
      127

unfoldable pub is_secret_ref : String → Bool
unfolding is_word
is_secret_ref = is_word is_upper (λ c. is_upper c || (is_digit c || is_char b'_' c)) 127

unfoldable pub is_evidence : String → Bool
unfolding is_word
is_evidence =
    is_word is_alphanumeric
      (λ c.
        is_alphanumeric c
        || (is_char b'.' c
            || (is_char b'_' c || (is_char b':' c || (is_char b'/' c || is_char b'-' c)))))
      254

-- value == "" || len(value) > 255, negated
abbrev pub is_name : String → Bool
is_name value = not (value == "") && leb (len value) 255
