-- ===== src/Tests/Conversation.antt =====
-- A conversation with one tool call and its result.
use alzette.Shared.{length, inr, some, true}
use alzette.Shared.Int.{pos}
use alzette.Gateway.Request.{ChatRequest, one, validate}
use alzette.Gateway.Request.Admissible.{IsAdmissible, validate-IsAdmissible}
use alzette.Gateway.Request.Tools.{
  Tool, object, field, end, string, array, cons, nil, named, validate_tools,
  validate_tool_parameters, find_field, valid_required, valid_depth, validate_tool_choice,
}
use alzette.Gateway.Request.Tools.Names.{times, names_of, validate_tools-names}
use Prim.Native.String.{String}
use alzette.Shared.{◌≤◌, ◌==◌, ◌≡◌, refl, Bool, none, List, [], ◌∷◌, eq_false→ne}
use alzette.Shared.Dict.{get, put, erase}
use alzette.Gateway.Metadata.{valid_tool_name, valid_tool_call_id}
use alzette.Gateway.Request.Messages.{
  null, text, Message, ToolCall, validate_messages, check_message, check_calls, check_call,
  valid_text_content,
}
use alzette.Gateway.Request.Messages.Answers.{
  call_count, answer_count, validate_messages-answered, validate_messages-in_order,
  validate_messages-settled,
}

abbrev weather : ToolCall
weather = record { id = "call_1"; type = "function"; name = "weather"; arguments = "{}" }

abbrev question : Message
question = record {
  role = "user";
  content = text "Will it rain?";
  reasoning_content = none;
  tool_calls = [];
  tool_call_id = "";
  name = "";
}

abbrev request : Message
request = record question { role = "assistant"; content = null; tool_calls = weather ∷ [] }

abbrev result : Message
result = record question { role = "tool"; content = text "yes"; tool_call_id = "call_1" }

abbrev thanks : Message
thanks = record question { content = text "Thanks." }

abbrev talk : List Message
talk = question ∷ request ∷ result ∷ thanks ∷ []

abbrev reads : String → Bool
reads arguments = arguments == "{}"

accepted_lem : validate_messages reads talk ≡ none
unfolding validate_messages check_message valid_text_content check_calls check_call valid_tool_name
    valid_tool_call_id get put erase
accepted_lem = refl

validate_messages-answered_example :
    (answer_count "call_1" talk ≡ call_count "call_1" talk) × (call_count "call_1" talk ≤ 1)
validate_messages-answered_example = validate_messages-answered reads talk accepted_lem "call_1"

validate_messages-in_order_example :
    answer_count "call_1" (question ∷ request ∷ []) ≤ call_count "call_1" (question ∷ request ∷ [])
validate_messages-in_order_example =
    validate_messages-in_order reads (question ∷ request ∷ []) (result ∷ thanks ∷ []) accepted_lem
      "call_1"

validate_messages-settled_example :
    answer_count "call_1" (question ∷ request ∷ result ∷ [])
    ≡ call_count "call_1" (question ∷ request ∷ result ∷ [])
validate_messages-settled_example =
    validate_messages-settled reads (question ∷ request ∷ result ∷ []) [] thanks accepted_lem
      (eq_false→ne "user" "tool" refl) "call_1"

abbrev weather_tool : Tool
weather_tool = record {
  type = "function";
  name = "weather";
  description = "The weather";
  parameters = some (
      object (
        field "type" (string "object") (
          field "properties" (object (field "city" (object end) end))
            (field "required" (array (cons (string "city") nil)) end))));
}

abbrev chat_request : ChatRequest
chat_request = record {
  model = "general";
  messages = talk;
  stream = some true;
  stream_options = some (some true);
  temperature = none;
  top_p = none;
  max_tokens = none;
  max_completion_tokens = some (pos 500);
  reasoning_effort = "low";
  stop = one "END";
  parallel_tool_calls = none;
  tools = weather_tool ∷ [];
  tool_choice = named "function" "weather";
}

valid_lem : validate reads chat_request ≡ none
unfolding validate validate_messages check_message valid_text_content check_calls check_call
    valid_tool_name valid_tool_call_id get put erase validate_tools validate_tool_parameters
    find_field valid_required valid_depth validate_tool_choice
valid_lem = refl

validate-IsAdmissible_example : IsAdmissible reads chat_request
validate-IsAdmissible_example = validate-IsAdmissible reads chat_request valid_lem

tools_lem : validate_tools (weather_tool ∷ []) ≡ inr ("weather" ∷ [])
unfolding validate_tools valid_tool_name validate_tool_parameters find_field valid_required
    valid_depth
tools_lem = refl

validate_tools-names_example :
    (length (weather_tool ∷ []) ≤ 128)
    × ((x : String)
        → (times x ("weather" ∷ []) ≡ times x (names_of (weather_tool ∷ [])))
          × (times x (names_of (weather_tool ∷ [])) ≤ 1))
validate_tools-names_example = validate_tools-names (weather_tool ∷ []) ("weather" ∷ []) tools_lem
