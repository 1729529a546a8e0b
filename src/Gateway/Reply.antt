-- ===== src/Gateway/Reply.antt =====
-- What the handler answers: protocolForPath, writeProtocolError and anthropicErrorType of
-- protocol.go, and the arguments of the handler's own closures.
use alzette.Shared.{ℕ, String, Bool, ◌==◌, ◌||◌, Option, none, some, eqb, leb, if◌then◌else◌}
use alzette.Shared.Int.{ℤ}
use alzette.Platform.{Time, Principal, TokenUsage, no_usage}
use alzette.Gateway.World.{Encoder}

pub data Protocol : Type 0 where
  chat responses anthropic : Protocol

unfoldable pub protocol_for_path : String → Option Protocol
protocol_for_path path =
    if path == "/v1/chat/completions"
    then some chat
    else if path == "/v1/responses"
    then some responses
    else if path == "/v1/messages"
    then some anthropic
    else none

unfoldable pub anthropic_error_type : ℕ → String → String
anthropic_error_type status code =
    if eqb status 401
    then "authentication_error"
    else if eqb status 403
    then "permission_error"
    else if eqb status 404
    then "not_found_error"
    else if eqb status 413
    then "request_too_large"
    else if eqb status 429
    then "rate_limit_error"
    else if eqb status 503 || code == "target_unavailable"
    then "overloaded_error"
    else if leb 500 status
    then "api_error"
    else "invalid_request_error"

-- What the client gets: an error has a code, a completion has a body. `retry_after` is the header.
pub record Response : Type 0 where
  pub status : ℕ
  pub code : String
  pub error_type : String
  pub message : String
  pub request_id : String
  pub retry_after : Option ℤ
  pub body : String

unfoldable pub write_error : Protocol → ℕ → String → String → String → String → Response
unfolding anthropic_error_type
write_error protocol status code error_type message request_id = record {
  status = status;
  code = code;
  error_type = elim protocol [ anthropic ↦ anthropic_error_type status code | _ ↦ error_type ];
  message = message;
  request_id = request_id;
  retry_after = none;
  body = "";
}

-- A chat request as far as the handler reads it: its model, the body for a provider's model (none
-- where it cannot be encoded), whether a stream is asked for, and newProtocolStreamEncoder for its
-- tools (none where the frames are passed on as they are).
pub record Parsed : Type 0 where
  pub model : String
  pub encode : String → Option String
  pub streaming : Bool
  pub stream_encoder : Protocol → String → String → Time → Option Encoder

pub record RequestError : Type 0 where
  pub status : ℕ
  pub code : String
  pub message : String

-- The context of a request that is in the ledger.
pub record Opened : Type 0 where
  pub protocol : Protocol
  pub request_id : String
  pub started_at : Time
  pub principal : Principal
  pub parsed : Parsed

-- The arguments of finish(…).
pub record Ending : Type 0 where
  pub status : String
  pub http_status : ℕ
  pub class : String
  pub model : String
  pub provider_id : String
  pub finality : String
  pub usage : TokenUsage

abbrev pub ending : String → ℕ → String → Ending
ending status http_status class = record {
  status = status;
  http_status = http_status;
  class = class;
  model = "";
  provider_id = "";
  finality = "unknown";
  usage = no_usage;
}

abbrev pub not_found_page : Response
not_found_page = record {
  status = 404;
  code = "";
  error_type = "";
  message = "404 page not found";
  request_id = "";
  retry_after = none;
  body = "";
}

unfoldable pub ledger_unavailable : Opened → Response
unfolding write_error
ledger_unavailable o =
    write_error o.protocol 503 "ledger_unavailable" "api_error"
      "request result could not be recorded" o.request_id
