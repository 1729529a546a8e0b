-- ===== src/Workforce/Input.antt =====
-- workforce.go: the checks of identifiers, names and addresses. mail.ParseAddress is a parameter: the
-- address that it finds.
use Prim.Native.Char.{code}
use alzette.Shared.{
  ℕ, suc, String, len, ◌==◌, Bool, false, ◌&&◌, ◌||◌, not, Option, none, some, List, ltb, leb, eqb,
  if◌then◌else◌,
}
use alzette.Shared.Space.{all_chars, has_part}
use alzette.Shared.Distinct.{normalise}
use alzette.Provisioning.Spec.{is_lower, is_digit, is_char, is_alphanumeric}

abbrev pub has_length : ℕ → ℕ → String → Bool
has_length lo hi value = leb lo (len value) && leb (len value) hi

unfoldable pub valid_id : String → Bool
unfolding all_chars
valid_id value =
    has_length 3 128 value
    && all_chars (λ c. is_alphanumeric c || (is_char b'_' c || is_char b'-' c)) value

unfoldable pub starts_with_word : String → Bool
starts_with_word String.[] = false
starts_with_word (String.◌∷◌ c s) = is_lower c || is_digit c

unfoldable pub valid_slug : String → Bool
unfolding all_chars starts_with_word
valid_slug value =
    has_length 1 63 value
    && (starts_with_word value
        && all_chars (λ c. is_lower c || (is_digit c || is_char b'-' c)) value)

unfoldable pub valid_username : String → Bool
unfolding all_chars
valid_username value =
    has_length 3 63 value
    && all_chars
        (λ c. is_lower c || (is_digit c || (is_char b'.' c || (is_char b'_' c || is_char b'-' c))))
        value

unfoldable pub valid_evidence : String → Bool
unfolding all_chars
valid_evidence value =
    has_length 1 255 value
    && all_chars
        (λ c.
          is_alphanumeric c
          || (is_char b' ' c
              || (is_char b'.' c
                  || (is_char b'_' c || (is_char b':' c || (is_char b'/' c || is_char b'-' c))))))
        value

-- strings.Count of one character
unfoldable pub count_char : ℕ → String → ℕ
count_char n String.[] = 0
count_char n (String.◌∷◌ c s) = let rest = count_char n s in if is_char n c then suc rest else rest

unfoldable pub valid_email : (String → Option String) → String → Bool
unfolding has_part count_char
valid_email parse_address value =
    let found : Bool = elim (parse_address value) [ none ↦ false | some a ↦ a == value ] in
    has_length 3 320 value
    && (not (
          has_part value " "
          || (has_part value "\t" || (has_part value "\r" || has_part value "\n")))
        && (found && eqb (count_char b'@' value) 1))

unfoldable pub valid_oidc_subject : String → Bool
unfolding all_chars
valid_oidc_subject value =
    has_length 1 255 value && all_chars (λ c. not (ltb (code c) 0x21 || is_char 0x7f c)) value

unfoldable pub ends_in_word : String → Bool
ends_in_word String.[] = false
ends_in_word (String.◌∷◌ c String.[]) = is_alphanumeric c
ends_in_word (String.◌∷◌ c (String.◌∷◌ d s)) = ends_in_word (String.◌∷◌ d s)

unfoldable pub begins_in_word : String → Bool
begins_in_word String.[] = false
begins_in_word (String.◌∷◌ c s) = is_alphanumeric c

-- groupNamePattern
unfoldable pub is_group_name : String → Bool
unfolding all_chars begins_in_word ends_in_word
is_group_name value =
    leb (len value) 128
    && (begins_in_word value
        && (ends_in_word value
            && all_chars
                (λ c.
                  is_alphanumeric c
                  || (is_char b' ' c
                      || (is_char b'.' c
                          || (is_char b'_' c || (is_char b':' c || is_char b'-' c)))))
                value))

-- normaliseIDs
unfoldable pub normalise_ids : List String → Option (List String)
unfolding normalise valid_id
normalise_ids values = normalise valid_id values
