-- ===== src/Gateway/Outcome.antt =====
-- The result of an attempt and its classes: attemptResult, classifyProviderStatus,
-- classifyBifrostError, routeError, failureHealthStatus, parseRetryAfter and elapsed of
-- gateway.go.
use Prim.Native.Char.{code}
use Prim.Native.Nat.{min}
use alzette.Shared.{
  ℕ, ◌+◌, ◌-◌, ◌*◌, ◌^◌, String, ◌==◌, Bool, true, false, ◌&&◌, ◌||◌, Option, none, some, ltb, leb,
  eqb, if◌then◌else◌,
}
use alzette.Shared.Int.{ℤ, pos, negsuc, wrap64, negated, quot}
use alzette.Platform.{
  Time, Duration, Error, not_found, forbidden, unavailable, TokenUsage, no_usage,
}

-- time.Second
abbrev pub second : Duration
second = 1000000000

pub record AttemptResult : Type 0 where
  pub success : Bool
  pub retryable : Bool
  pub class : String
  pub client_status : ℕ
  pub message : String
  pub body : String
  pub model : String
  pub provider_id : String
  pub usage : TokenUsage
  pub finality : String
  pub retry_after : ℤ
  pub retry_after_set : Bool
  pub retry_after_header : Option ℤ

-- attemptResult{class: …, clientStatus: …, message: …}
abbrev pub failure : String → ℕ → String → AttemptResult
failure class status message = record {
  success = false;
  retryable = false;
  class = class;
  client_status = status;
  message = message;
  body = "";
  model = "";
  provider_id = "";
  usage = no_usage;
  finality = "";
  retry_after = pos 0;
  retry_after_set = false;
  retry_after_header = none;
}

abbrev pub transient : AttemptResult → AttemptResult
transient r = record r { retryable = true }

unfoldable pub classify_provider_status : ℕ → AttemptResult
classify_provider_status status =
    if eqb status 400 || eqb status 422
    then failure "upstream_rejected" 400 "upstream inference rejected the supported request"
    else if eqb status 429
    then transient (failure "upstream_rate_limited" 429 "upstream inference is rate limited")
    else if eqb status 503
    then transient (failure "upstream_unavailable" 503 "upstream inference is unavailable")
    else if eqb status 401 || (eqb status 403 || eqb status 404)
    then failure "target_configuration" 502
        "configured inference target rejected its server-side configuration"
    else failure "upstream_error" 502 "upstream inference failed"

-- The status, the code and the message for an error of ResolveRoute.
unfoldable pub route_error : Error → ℕ × String × String
route_error unavailable = (503, "target_unavailable", "configured inference target is unavailable")
route_error forbidden = (403, "route_forbidden", "request is not authorised for this model")
route_error not_found = (404, "model_not_authorised", "request is not authorised for this model")
route_error _ = (503, "route_unavailable", "route resolution is temporarily unavailable")

unfoldable pub failure_health_status : String → String
failure_health_status class =
    if class == "target_configuration"
      || (class == "upstream_rate_limited"
          || (class == "upstream_timeout"
              || (class == "upstream_transport"
                  || (class == "upstream_unavailable"
                      || (class == "upstream_error"
                          || (class == "invalid_upstream_response"
                              || class == "upstream_response_too_large"))))))
    then "degraded"
    else ""

-- The decimal number that a text of digits spells.
unfoldable pub digits_from : ℕ → String → Option ℕ
digits_from n String.[] = some n
digits_from n (String.◌∷◌ c s) =
    let rest = digits_from (n * 10 + (code c - b'0')) s in
    if leb b'0' (code c) && leb (code c) b'9' then rest else none

unfoldable pub digits : String → Option ℕ
unfolding digits_from
digits String.[] = none
digits (String.◌∷◌ c s) = digits_from 0 (String.◌∷◌ c s)

-- The parsed magnitude as an int64 of that sign.
unfoldable pub signed : Bool → Option ℕ → Option ℤ
signed minus none = none
signed true (some n) = if leb n (2 ^ 63) then some (negated n) else none
signed false (some n) = if ltb n (2 ^ 63) then some (pos n) else none

-- strconv.Atoi
unfoldable pub atoi : String → Option ℤ
unfolding digits signed
atoi String.[] = none
atoi (String.◌∷◌ c s) =
    if eqb (code c) b'-'
    then signed true (digits s)
    else if eqb (code c) b'+'
    then signed false (digits s)
    else signed false (digits (String.◌∷◌ c s))

-- The three results of parseRetryAfter. The header is printed in decimal.
pub record RetryAfter : Type 0 where
  pub delay : ℤ
  pub is_set : Bool
  pub header : Option ℤ

abbrev pub no_retry_after : RetryAfter
no_retry_after = record { delay = pos 0; is_set = false; header = none }

-- A date in the future, at most 2^63 - 1 nanoseconds away as time.Sub has it.
unfoldable pub retry_at : Time → Time → RetryAfter
retry_at when now =
    let delay = min (when - now) (2 ^ 63 - 1) in
    record {
      delay = pos delay;
      is_set = true;
      header = some (quot (wrap64 (delay + second - 1)) second);
    }

-- `parse_time` is http.ParseTime. time.Duration(seconds) * time.Second wraps around.
unfoldable pub parse_retry_after : (String → Option Time) → String → Time → RetryAfter
unfolding atoi retry_at
parse_retry_after parse_time value now =
    let dated : RetryAfter = elim (parse_time value) [
      | none ↦ no_retry_after
      | some when ↦ retry_at when now
    ] in
    if value == "" then no_retry_after else elim (atoi value) [
      | none ↦ dated
      | some (negsuc n) ↦ dated
      | some (pos seconds) ↦ record {
        delay = wrap64 (seconds * second);
        is_set = true;
        header = some (pos seconds);
      }
    ]

unfoldable pub elapsed : Time → Time → Duration
elapsed start end = if ltb end start then 0 else end - start
