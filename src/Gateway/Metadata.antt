-- ===== src/Gateway/Metadata.antt =====
-- The checks of names and identifiers: safeMetadata, safeProviderID and safeModel of gateway.go,
-- validToolName and validToolCallID of request.go. A text is walked by its characters.
use Prim.Native.Char.{Char, code}
use alzette.Shared.{
  ℕ, String, len, ◌==◌, Bool, true, false, ◌&&◌, ◌||◌, not, ltb, leb, eqb, if◌then◌else◌,
}

unfoldable pub is_letter_or_digit : Char → Bool
is_letter_or_digit c =
    (leb b'a' (code c) && leb (code c) b'z')
    || ((leb b'A' (code c) && leb (code c) b'Z') || (leb b'0' (code c) && leb (code c) b'9'))

-- strings.ContainsRune
unfoldable pub contains_rune : String → Char → Bool
contains_rune String.[] c = false
contains_rune (String.◌∷◌ x xs) c = eqb (code x) (code c) || contains_rune xs c

-- Every character of the text passes the test: a loop that returns false on the first that fails.
unfoldable pub every : (Char → Bool) → String → Bool
every p String.[] = true
every p (String.◌∷◌ c s) = p c && every p s

-- The runes of ".:_-" and `extra` are allowed beside letters and digits.
unfoldable pub safe_metadata : String → String → Bool
unfolding is_letter_or_digit contains_rune every
safe_metadata value extra =
    every (λ c. is_letter_or_digit c || (contains_rune "._:-" c || contains_rune extra c)) value

unfoldable pub safe_provider_id : String → String
unfolding safe_metadata
safe_provider_id value =
    if eqb (len value) 0 || (ltb 200 (len value) || not (safe_metadata value "/"))
    then ""
    else value

unfoldable pub safe_model : String → String
unfolding safe_metadata
safe_model value =
    if eqb (len value) 0 || (ltb 255 (len value) || not (safe_metadata value "/@"))
    then ""
    else value

abbrev pub max_tool_name_length : ℕ
max_tool_name_length = 64

unfoldable pub valid_tool_name : String → Bool
unfolding is_letter_or_digit every
valid_tool_name value =
    if value == "" || ltb max_tool_name_length (len value)
    then false
    else every (λ c. is_letter_or_digit c || (eqb (code c) b'_' || eqb (code c) b'-')) value

unfoldable pub valid_tool_call_id : String → Bool
unfolding safe_metadata
valid_tool_call_id value = not (value == "") && (leb (len value) 200 && safe_metadata value "-")
