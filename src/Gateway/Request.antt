-- ===== src/Gateway/Request.antt =====
-- request.go: the bounded chat request and its validation. JSON is decoded already: a raw field is
-- the value that the source's decoding finds in it. A number of type float64 is its exact multiple
-- of 2^-1074, the smallest positive one. An error is one requestError, `none` the nil pointer.
pub mod Messages
pub mod Tools
pub mod Admissible
use alzette.Shared.{
  ℕ, ◌^◌, String, len, ◌==◌, Bool, true, false, ◌&&◌, ◌||◌, not, Option, none, some, List, [], ◌∷◌,
  ltb, leb, eqb, length, ◌⊎◌, inl, inr, if◌then◌else◌,
}
use alzette.Shared.Int.{ℤ, pos, negsuc, at_most}
use alzette.Gateway.Reply.{RequestError}
use Messages.{Message, validate_messages, is_some}
use Tools.{Tool, ToolChoice, validate_tools, validate_tool_choice}

abbrev pub max_messages : ℕ
max_messages = 128

-- The raw `stop`. A JSON null decodes as the empty text.
pub data Stop : Type 0 where
  absent : Stop
  one : String → Stop
  many : List String → Stop
  malformed : Stop

-- ResponsesToolAliases is left out: validation does not read it.
pub record ChatRequest : Type 0 where
  pub model : String
  pub messages : List Message
  pub stream : Option Bool
  pub stream_options : Option (Option Bool)
  pub temperature : Option ℤ
  pub top_p : Option ℤ
  pub max_tokens : Option ℤ
  pub max_completion_tokens : Option ℤ
  pub reasoning_effort : String
  pub stop : Stop
  pub parallel_tool_calls : Option Bool
  pub tools : List Tool
  pub tool_choice : ToolChoice

abbrev pub bad_request : String → String → Option RequestError
bad_request code message = some (record { status = 400; code = code; message = message })

-- `if condition { return … }`, and what follows it.
abbrev pub reject : Bool → Option RequestError → Option RequestError → Option RequestError
reject true e rest = e
reject false e rest = rest

-- `if validation := …; validation != nil { return validation }`, and what follows it.
abbrev pub check : Option RequestError → Option RequestError → Option RequestError
check (some e) rest = some e
check none rest = rest

unfoldable pub streaming : ChatRequest → Bool
streaming r = elim r.stream [ none ↦ false | some b ↦ b ]

unfoldable pub max_output_tokens : ChatRequest → Option ℤ
max_output_tokens r = elim r.max_completion_tokens [ some n ↦ some n | none ↦ r.max_tokens ]

-- *value < low || *value > high, for low = 0 or 1
abbrev pub out_of_range : ℕ → ℕ → Option ℤ → Bool
out_of_range low high none = false
out_of_range low high (some (pos n)) = ltb n low || ltb high n
out_of_range low high (some (negsuc n)) = true

abbrev pub is_bounded_text : String → Bool
is_bounded_text value = not (value == "") && leb (len value) 1024

unfoldable pub all_bounded : List String → Bool
all_bounded [] = true
all_bounded (value ∷ values) = is_bounded_text value && all_bounded values

unfoldable pub validate_stop : Stop → Option RequestError
unfolding all_bounded
validate_stop absent = none
validate_stop (one single) =
    if not (is_bounded_text single)
    then bad_request "invalid_stop" "stop must contain bounded non-empty text"
    else none
validate_stop (many values) =
    if eqb (length values) 0 || ltb 16 (length values)
    then bad_request "invalid_stop" "stop must be text or an array of up to 16 strings"
    else if not (all_bounded values)
    then bad_request "invalid_stop" "stop must contain bounded non-empty text"
    else none
validate_stop malformed =
    bad_request "invalid_stop" "stop must be text or an array of up to 16 strings"

unfoldable pub is_effort : String → Bool
is_effort e =
    e == "none"
    || (e == "minimal" || (e == "low" || (e == "medium" || (e == "high" || e == "xhigh"))))

-- 1.0 and 2.0
pub unit_float : ℕ
unit_float = 2 ^ 1074

pub double_unit_float : ℕ
double_unit_float = 2 ^ 1075

unfoldable pub validate_stream_options : ChatRequest → Option RequestError
unfolding streaming
validate_stream_options r = elim r.stream_options [
  | none ↦ none
  | some include_usage ↦
      if not (streaming r) || elim include_usage [ none ↦ true | some b ↦ false ]
      then bad_request "invalid_stream_options"
          "stream_options requires streaming and an include_usage boolean"
      else none
]

-- The tools, and the choice among their names.
unfoldable pub validate_tooling : ChatRequest → Option RequestError
validate_tooling r = elim (validate_tools r.tools) [
  | inl e ↦ some e
  | inr names ↦ validate_tool_choice r.tool_choice names
]

-- `is_object` says of a text whether it decodes as one JSON object.
unfoldable pub validate : (String → Bool) → ChatRequest → Option RequestError
unfolding max_output_tokens validate_stop is_effort validate_stream_options validate_tooling
validate is_object r =
    reject (r.model == "" || ltb 128 (len r.model))
      (bad_request "invalid_model" "model alias is required")
      (reject (eqb (length r.messages) 0 || ltb max_messages (length r.messages))
        (bad_request "invalid_messages" "messages must contain between 1 and 128 entries")
        (check (validate_messages is_object r.messages) (
          reject (out_of_range 0 double_unit_float r.temperature)
            (bad_request "invalid_temperature" "temperature must be between 0 and 2")
            (reject (out_of_range 0 unit_float r.top_p)
              (bad_request "invalid_top_p" "top_p must be between 0 and 1")
              (reject (is_some r.max_tokens && is_some r.max_completion_tokens)
                (bad_request "invalid_max_tokens"
                  "max_tokens and max_completion_tokens cannot both be supplied")
                (reject (out_of_range 1 1000000 (max_output_tokens r))
                  (bad_request "invalid_max_tokens" "max_tokens is outside the supported range")
                  (reject (not (r.reasoning_effort == "") && not (is_effort r.reasoning_effort))
                    (bad_request "invalid_reasoning_effort"
                      "reasoning_effort is outside the supported range")
                    (check (validate_stop r.stop)
                      (check (validate_stream_options r) (validate_tooling r))))))))))
