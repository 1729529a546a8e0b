-- ===== src/Gateway/Request/Messages.antt =====
-- validateMessages and validTextContent of request.go.
pub mod Answers
use alzette.Shared.{
  ℕ, String, len, ◌==◌, Bool, true, false, ◌&&◌, ◌||◌, not, Option, none, some, List, [], ◌∷◌, ◌⊎◌,
  inl, inr, ltb, leb, eqb, length, contains, if◌then◌else◌,
}
use alzette.Shared.Dict.{Dict, get, put, erase}
use alzette.Gateway.Metadata.{valid_tool_name, valid_tool_call_id}
use alzette.Gateway.Reply.{RequestError}

abbrev pub max_message_parts : ℕ
max_message_parts = 128

abbrev pub max_tool_calls : ℕ
max_tool_calls = 128

-- 256 << 10
abbrev pub max_reasoning_bytes : ℕ
max_reasoning_bytes = 262144

pub record TextPart : Type 0 where
  pub type : String
  pub text : String

-- The raw `content`: no bytes, null, a string, an array of parts that decodes strictly, or other.
pub data Content : Type 0 where
  missing null : Content
  text : String → Content
  parts : List TextPart → Content
  malformed : Content

pub record ToolCall : Type 0 where
  pub id : String
  pub type : String
  pub name : String
  pub arguments : String

pub record Message : Type 0 where
  pub role : String
  pub content : Content
  pub reasoning_content : Option String
  pub tool_calls : List ToolCall
  pub tool_call_id : String
  pub name : String

unfoldable pub valid_parts : List TextPart → Bool
valid_parts [] = true
valid_parts (part ∷ rest) = not (not (part.type == "text") || part.text == "") && valid_parts rest

-- Whether there is text; `none` is an error.
unfoldable pub valid_text_content : Content → Bool → Bool → Option Bool
unfolding valid_parts
valid_text_content missing allow_null allow_parts = none
valid_text_content null allow_null allow_parts = if allow_null then some false else none
valid_text_content (text value) allow_null allow_parts = some (not (value == ""))
valid_text_content (parts values) allow_null allow_parts =
    if not allow_parts
    then none
    else if eqb (length values) 0 || ltb max_message_parts (length values)
    then none
    else if valid_parts values
    then some true
    else none
valid_text_content malformed allow_null allow_parts = none

-- err != nil || !ok
abbrev pub lacks_text : Option Bool → Bool
lacks_text none = true
lacks_text (some has_text) = not has_text

abbrev pub is_some {ℓ} : {A : Type ℓ} → Option A → Bool
is_some none = false
is_some (some a) = true

abbrev pub is_empty {ℓ} : {A : Type ℓ} → List A → Bool
is_empty [] = true
is_empty (x ∷ xs) = false

-- The calls that wait for their result, with their names, and the identifiers of all calls.
pub record Progress : Type 0 where
  pub outstanding : Dict String
  pub seen : List String

abbrev pub invalid_messages : String → RequestError
invalid_messages message = record { status = 400; code = "invalid_messages"; message = message }

-- The result of a step of the loop: an error that is returned, or the progress.
abbrev pub Checked : Type 0
Checked = RequestError ⊎ Progress

abbrev pub fail : String → Checked
fail message = inl (invalid_messages message)

unfoldable pub check_call : (String → Bool) → Progress → ToolCall → Checked
check_call is_object p c =
    if not (c.type == "function") || (not (valid_tool_name c.name) || not (valid_tool_call_id c.id))
    then fail "assistant tool calls must be named function calls"
    else if contains p.seen c.id
    then fail "assistant tool call IDs must be unique"
    else if not (is_object c.arguments)
    then fail "assistant tool call arguments must be a JSON object string"
    else inr (record { outstanding = put p.outstanding c.id c.name; seen = c.id ∷ p.seen })

unfoldable pub check_calls : (String → Bool) → Progress → List ToolCall → Checked
check_calls is_object p [] = inr p
check_calls is_object p (c ∷ cs) = elim (check_call is_object p c) [
  | inl e ↦ inl e
  | inr q ↦ check_calls is_object q cs
]

abbrev pub is_too_long : Option String → Bool
is_too_long none = false
is_too_long (some reasoning) = ltb max_reasoning_bytes (len reasoning)

-- case "system", "user"
unfoldable pub check_plain : Progress → Message → Checked
check_plain p m =
    if is_some m.reasoning_content
      || (not (is_empty m.tool_calls) || (not (m.tool_call_id == "") || not (m.name == "")))
    then fail "message fields are outside the supported text subset"
    else if lacks_text (valid_text_content m.content false true)
    then fail "system and user content must be non-empty text"
    else inr p

-- case "assistant"
unfoldable pub check_assistant : (String → Bool) → Progress → Message → Checked
check_assistant is_object p m =
    if not (m.tool_call_id == "")
      || (not (m.name == "") || ltb max_tool_calls (length m.tool_calls))
    then fail "assistant message fields are outside the supported subset"
    else if is_too_long m.reasoning_content
    then fail "assistant reasoning content exceeds the supported limit"
    else elim (valid_text_content m.content (not (is_empty m.tool_calls)) true) [
      | none ↦ fail "assistant content must be text or accompanied by function tool calls"
      | some has_text ↦
          if not has_text && is_empty m.tool_calls
          then fail "assistant content must be text or accompanied by function tool calls"
          else check_calls is_object p m.tool_calls
    ]

-- case "tool"
unfoldable pub check_tool : Progress → Message → Checked
check_tool p m =
    if is_some m.reasoning_content
      || (not (is_empty m.tool_calls) || not (valid_tool_call_id m.tool_call_id))
    then fail "tool messages require a valid tool_call_id"
    else elim (get p.outstanding m.tool_call_id) [
      | none ↦ fail "tool messages must answer a preceding assistant tool call"
      | some expected ↦
          if not (m.name == "") && (not (m.name == expected) || not (valid_tool_name m.name))
          then fail "tool result name does not match its assistant tool call"
          else if lacks_text (valid_text_content m.content false false)
          then fail "tool result content must be a non-empty string"
          else inr (record p { outstanding = erase p.outstanding m.tool_call_id })
    ]

-- The body of the loop.
unfoldable pub check_message : (String → Bool) → Progress → Message → Checked
unfolding check_plain check_assistant check_tool
check_message is_object p m =
    if not (m.role == "tool") && not (is_empty p.outstanding)
    then fail "tool results must immediately follow the assistant tool calls they answer"
    else if m.role == "system" || m.role == "user"
    then check_plain p m
    else if m.role == "assistant"
    then check_assistant is_object p m
    else if m.role == "tool"
    then check_tool p m
    else fail "message role is outside the supported subset"

unfoldable pub check_messages : (String → Bool) → Progress → List Message → Checked
check_messages is_object p [] = inr p
check_messages is_object p (m ∷ ms) = elim (check_message is_object p m) [
  | inl e ↦ inl e
  | inr q ↦ check_messages is_object q ms
]

unfoldable pub validate_messages : (String → Bool) → List Message → Option RequestError
unfolding check_messages
validate_messages is_object ms =
    elim (check_messages is_object (record { outstanding = []; seen = [] }) ms) [
      | inl e ↦ some e
      | inr p ↦
          if not (is_empty p.outstanding)
          then some (invalid_messages "every assistant tool call must have a following tool result")
          else none
    ]
