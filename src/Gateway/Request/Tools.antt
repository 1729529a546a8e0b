-- ===== src/Gateway/Request/Tools.antt =====
-- validateTools, validateToolParameters, validateJSONDepth and validateToolChoice of request.go.
pub mod Names
use alzette.Shared.{
  ℕ, suc, String, len, ◌==◌, Bool, true, false, ◌&&◌, ◌||◌, not, Option, none, some, List, [], ◌∷◌,
  ◌⊎◌, inl, inr, ltb, length, contains, if◌then◌else◌,
}
use alzette.Gateway.Metadata.{valid_tool_name}
use alzette.Gateway.Reply.{RequestError}

abbrev pub max_tools : ℕ
max_tools = 128

-- A JSON value; a number by its text. The names of an object are different.
mutual
  pub data Json : Type 0 where
    null : Json
    boolean : Bool → Json
    number : String → Json
    string : String → Json
    array : Items → Json
    object : Fields → Json

  pub data Items : Type 0 where
    nil : Items
    cons : Json → Items → Items

  pub data Fields : Type 0 where
    end : Fields
    field : String → Json → Fields → Fields

unfoldable pub find_field : Fields → String → Option Json
find_field end k = none
find_field (field j v fs) k = let rest = find_field fs k in if j == k then some v else rest

-- The raw `parameters` are decoded, or do not decode.
pub record Tool : Type 0 where
  pub type : String
  pub name : String
  pub description : String
  pub parameters : Option Json

-- The raw `tool_choice`. A JSON null decodes as the empty word.
pub data ToolChoice : Type 0 where
  absent : ToolChoice
  word : String → ToolChoice
  named : String → String → ToolChoice
  malformed : ToolChoice

-- validateJSONDepth. A value that is neither array nor object only has its depth compared.
unfoldable mutual
  pub valid_depth : ℕ → Json → Bool
  valid_depth depth (array xs) = not (ltb 32 depth) && valid_items depth xs
  valid_depth depth (object fs) = not (ltb 32 depth) && valid_fields depth fs
  valid_depth depth _ = not (ltb 32 depth)

  pub valid_items : ℕ → Items → Bool
  valid_items depth nil = true
  valid_items depth (cons x xs) = valid_depth (suc depth) x && valid_items depth xs

  pub valid_fields : ℕ → Fields → Bool
  valid_fields depth end = true
  valid_fields depth (field k v fs) =
      not (k == "" || ltb 256 (len k)) && (valid_depth (suc depth) v && valid_fields depth fs)

abbrev pub is_some : Option Json → Bool
is_some none = false
is_some (some v) = true

-- The entries of `required` are different names of properties.
unfoldable pub valid_required : Fields → List String → Items → Bool
valid_required properties seen nil = true
valid_required properties seen (cons (string name) rest) =
    not (name == "")
    && (is_some (find_field properties name)
        && (not (contains seen name) && valid_required properties (name ∷ seen) rest))
valid_required properties seen (cons _ rest) = false

abbrev pub is_object_type : Option Json → Bool
is_object_type (some (string t)) = t == "object"
is_object_type _ = false

abbrev pub valid_requirement : Fields → Option Json → Bool
valid_requirement properties none = true
valid_requirement properties (some (array names)) = valid_required properties [] names
valid_requirement properties (some _) = false

abbrev pub valid_schema : Fields → Option Json → Bool
valid_schema schema (some (object properties)) =
    valid_requirement properties (find_field schema "required") && valid_depth 0 (object schema)
valid_schema schema _ = false

-- True where the source returns no error. A null schema is an error, and so is any other value
-- than an object.
unfoldable pub validate_tool_parameters : Option Json → Bool
validate_tool_parameters (some (object schema)) =
    is_object_type (find_field schema "type")
    && valid_schema schema (find_field schema "properties")
validate_tool_parameters _ = false

abbrev pub invalid_tools : String → RequestError
invalid_tools message = record { status = 400; code = "invalid_tools"; message = message }

unfoldable pub check_tools : List String → List Tool → RequestError ⊎ List String
check_tools names [] = inr names
check_tools names (t ∷ ts) =
    let rest = check_tools (t.name ∷ names) ts in
    if not (t.type == "function") || not (valid_tool_name t.name)
    then inl (invalid_tools "tools must be named function definitions")
    else if ltb 8192 (len t.description)
    then inl (invalid_tools "tool descriptions exceed the supported limit")
    else if contains names t.name
    then inl (invalid_tools "tool names must be unique")
    else if not (validate_tool_parameters t.parameters)
    then inl (invalid_tools "tool parameters must be a supported object JSON Schema")
    else rest

-- An error, or the names of the tools.
unfoldable pub validate_tools : List Tool → RequestError ⊎ List String
unfolding check_tools
validate_tools tools =
    if ltb max_tools (length tools)
    then inl (invalid_tools "tools must contain at most 128 function definitions")
    else check_tools [] tools

abbrev pub invalid_tool_choice : Option RequestError
invalid_tool_choice = some (record {
  status = 400;
  code = "invalid_tool_choice";
  message = "tool_choice must select a declared supported function tool";
})

abbrev pub is_empty : List String → Bool
is_empty [] = true
is_empty (x ∷ xs) = false

unfoldable pub validate_tool_choice : ToolChoice → List String → Option RequestError
validate_tool_choice absent names = none
validate_tool_choice (word choice) names =
    if not (choice == "auto") && (not (choice == "none") && not (choice == "required"))
    then invalid_tool_choice
    else if not (choice == "none") && is_empty names
    then invalid_tool_choice
    else none
validate_tool_choice (named type name) names =
    if not (type == "function") || not (valid_tool_name name)
    then invalid_tool_choice
    else if not (contains names name)
    then invalid_tool_choice
    else none
validate_tool_choice malformed names = invalid_tool_choice
