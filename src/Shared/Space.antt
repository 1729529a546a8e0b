-- ===== src/Shared/Space.antt =====
-- White space as Go's unicode and strings packages have it, and parts of texts.
use Prim.Native.Char.{Char, code}
use Prim.Native.String
use Prim.Native.String.{String}
use Prim.Native.Nat.{ℕ}
use mathlib.Core.Bool.{Bool, true, false, ◌&&◌, ◌||◌, not}
use text.Mathlib.Text.{◌==◌}
use alzette.Shared.Tests.{leb, eqb, if◌then◌else◌}

-- Go's unicode.IsSpace.
unfoldable pub is_space : Char → Bool
is_space c =
    let n = code c in
    (leb 9 n && leb n 13)
    || (eqb n 32
        || (eqb n 0x85
            || (eqb n 0xa0
                || (eqb n 0x1680
                    || ((leb 0x2000 n && leb n 0x200a)
                        || (eqb n 0x2028
                            || (eqb n 0x2029
                                || (eqb n 0x202f || (eqb n 0x205f || eqb n 0x3000)))))))))

unfoldable pub ends_in_space : String → Bool
unfolding is_space
ends_in_space String.[] = false
ends_in_space (String.◌∷◌ c String.[]) = is_space c
ends_in_space (String.◌∷◌ c (String.◌∷◌ d s)) = ends_in_space (String.◌∷◌ d s)

-- strings.TrimSpace(value) == value
unfoldable pub is_trimmed : String → Bool
unfolding ends_in_space
is_trimmed String.[] = true
is_trimmed (String.◌∷◌ c s) = not (is_space c) && not (ends_in_space (String.◌∷◌ c s))

unfoldable pub trim_left : String → String
unfolding is_space
trim_left String.[] = ""
trim_left (String.◌∷◌ c s) = let rest = trim_left s in if is_space c then rest else String.◌∷◌ c s

-- The text without its longest end of characters that pass the test.
unfoldable pub trim_right : (Char → Bool) → String → String
trim_right p String.[] = ""
trim_right p (String.◌∷◌ c s) =
    let rest = trim_right p s in if rest == "" && p c then "" else String.◌∷◌ c rest

-- strings.TrimSpace
unfoldable pub trim_space : String → String
unfolding trim_left trim_right
trim_space s = trim_right is_space (trim_left s)

unfoldable pub starts_with : String → String → Bool
starts_with String.[] s = true
starts_with (String.◌∷◌ c p) String.[] = false
starts_with (String.◌∷◌ c p) (String.◌∷◌ d s) = eqb (code c) (code d) && starts_with p s

-- strings.Contains(s, part)
unfoldable pub has_part : String → String → Bool
unfolding starts_with
has_part String.[] part = part == ""
has_part (String.◌∷◌ c s) part = starts_with part (String.◌∷◌ c s) || has_part s part

unfoldable pub all_chars : (Char → Bool) → String → Bool
all_chars p String.[] = true
all_chars p (String.◌∷◌ c s) = p c && all_chars p s

-- A regular expression ^[first][rest]{0,n}$.
unfoldable pub is_word : (Char → Bool) → (Char → Bool) → ℕ → String → Bool
unfolding all_chars
is_word first rest n String.[] = false
is_word first rest n (String.◌∷◌ c s) = first c && (all_chars rest s && leb (String.len s) n)
