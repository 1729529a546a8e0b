-- ===== src/Gateway/Chunk.antt =====
-- streamState and its consume, and validateProviderStreamDelta, of stream.go. A raw field is the
-- value that decoding finds in it.
use alzette.Shared.{
  ℕ, String, ◌==◌, Bool, true, false, ◌&&◌, ◌||◌, not, Option, none, some, List, [], ◌∷◌, ltb,
  length, if◌then◌else◌,
}
use alzette.Shared.Int.{ℤ, is_neg}
use alzette.Platform.{TokenUsage, no_usage}
use alzette.Gateway.Metadata.{safe_provider_id, safe_model, valid_tool_name, valid_tool_call_id}
use alzette.Gateway.Usage.{ProviderUsage, parse_provider_usage}

-- maxToolCalls and maxMessages
abbrev pub max_deltas : ℕ
max_deltas = 128

-- A function's name is empty where there is no function.
pub record ToolCallDelta : Type 0 where
  pub index : ℤ
  pub id : String
  pub type : String
  pub name : String

pub data ToolCallDeltas : Type 0 where
  absent malformed : ToolCallDeltas
  calls : List ToolCallDelta → ToolCallDeltas

-- The raw `delta`: absent or null, not decodable, or a role, whether the content is absent, null
-- or text, and the calls.
pub data Delta : Type 0 where
  absent malformed : Delta
  delta : String → Bool → ToolCallDeltas → Delta

-- The raw `finish_reason`.
pub data FinishReason : Type 0 where
  absent malformed : FinishReason
  reason : String → FinishReason

pub record Choice : Type 0 where
  pub change : Delta
  pub finish_reason : FinishReason

-- The raw `choices`. A JSON null is an empty list.
pub data Choices : Type 0 where
  absent malformed : Choices
  choices : List Choice → Choices

-- `error` says that the field is there and is not null.
pub record Chunk : Type 0 where
  pub id : String
  pub model : String
  pub choices : Choices
  pub usage : Option ProviderUsage
  pub error : Bool

pub record StreamState : Type 0 where
  pub model : String
  pub provider_id : String
  pub usage : TokenUsage
  pub finality : String
  pub saw_choice : Bool
  pub saw_finish : Bool

-- streamState{providerID: …, finality: "unknown"}
abbrev pub start_state : String → StreamState
start_state provider_id = record {
  model = "";
  provider_id = provider_id;
  usage = no_usage;
  finality = "unknown";
  saw_choice = false;
  saw_finish = false;
}

unfoldable pub valid_call_deltas : List ToolCallDelta → Bool
valid_call_deltas [] = true
valid_call_deltas (c ∷ cs) =
    not (
      is_neg c.index
      || ((not (c.id == "") && not (valid_tool_call_id c.id))
          || (not (c.type == "") && not (c.type == "function"))))
    && (not (not (c.name == "") && not (valid_tool_name c.name)) && valid_call_deltas cs)

unfoldable pub valid_calls : ToolCallDeltas → Bool
unfolding valid_call_deltas
valid_calls absent = true
valid_calls malformed = false
valid_calls (calls []) = false
valid_calls (calls (c ∷ cs)) = not (ltb max_deltas (length (c ∷ cs))) && valid_call_deltas (c ∷ cs)

-- True where the source returns no error, or does not call it.
unfoldable pub validate_delta : Delta → Bool
unfolding valid_calls
validate_delta absent = true
validate_delta malformed = false
validate_delta (delta role is_text cs) =
    not (not (role == "") && not (role == "assistant")) && (is_text && valid_calls cs)

-- Whether a choice is admitted, and whether it is a finish.
unfoldable pub valid_reason : FinishReason → Bool
valid_reason absent = true
valid_reason malformed = false
valid_reason (reason r) = r == "stop" || (r == "length" || r == "tool_calls")

abbrev pub is_finish : FinishReason → Bool
is_finish absent = false
is_finish _ = true

-- A result of consume: whether it returns no error, and the state that it leaves.
abbrev pub Consumed : Type 0
Consumed = Bool × StreamState

-- The loop over the choices.
unfoldable pub consume_choices : List Choice → StreamState → Consumed
unfolding validate_delta valid_reason
consume_choices [] state = (true, state)
consume_choices (c ∷ cs) state =
    let next = if is_finish c.finish_reason then record state { saw_finish = true } else state in
    let rest = consume_choices cs next in
    if not (validate_delta c.change)
    then (false, state)
    else if not (valid_reason c.finish_reason)
    then (false, state)
    else rest

unfoldable pub consume_choice_list : Choices → Bool → StreamState → Consumed
unfolding consume_choices
consume_choice_list absent has_usage state = (has_usage, state)
consume_choice_list malformed has_usage state = (false, state)
consume_choice_list (choices []) has_usage state = (has_usage, state)
consume_choice_list (choices (c ∷ cs)) has_usage state =
    if ltb max_deltas (length (c ∷ cs))
    then (false, state)
    else consume_choices (c ∷ cs) (record state { saw_choice = true })

-- The identifier and the model of a chunk are taken over where they are safe.
unfoldable pub take_identity : Chunk → StreamState → StreamState
take_identity chunk state =
    let id = safe_provider_id chunk.id in
    let model = safe_model chunk.model in
    record state {
      provider_id = if id == "" then state.provider_id else id;
      model = if model == "" then state.model else model;
    }

unfoldable pub consume_usage : Chunk → StreamState → Consumed
unfolding parse_provider_usage consume_choice_list
consume_usage chunk state = elim chunk.usage [
  | none ↦ consume_choice_list chunk.choices false state
  | some reported ↦
      if not state.saw_choice then (false, state) else elim (parse_provider_usage (some reported)) [
        | none ↦ (false, state)
        | some (usage, finality) ↦
            consume_choice_list chunk.choices true
              (record state { usage = usage; finality = finality })
      ]
]

-- `decode` is decodeJSONValue into a chunk.
unfoldable pub consume : (String → Option Chunk) → String → StreamState → Consumed
unfolding take_identity consume_usage
consume decode value state = elim (decode value) [
  | none ↦ (false, state)
  | some chunk ↦
      if chunk.error then (false, state) else consume_usage chunk (take_identity chunk state)
]
