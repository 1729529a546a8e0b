-- ===== src/Gateway/Stream/Frame.antt =====
-- readSSEFrame of stream.go. A stream is the list of its lines without their line feeds, and what
-- follows the last one. It is not cut here at one byte more than the limit, as the source cuts it:
-- a frame that the cut would end is a frame beyond the limit, and the limit is checked first.
pub mod Framing
use Prim.Native.Char.{Char, code}
use Prim.Native.String
use alzette.Shared.{
  ℕ, zero, suc, String, len, ◌==◌, Bool, true, false, ◌&&◌, List, [], ◌∷◌, ◌++◌, eqb, if◌then◌else◌,
}
use alzette.Shared.Space.{starts_with}

-- How the reading of a frame ended: with an empty line, with the stream or by another field.
pub data FrameEnd : Type 0 where
  complete ended unsupported : FrameEnd

-- The data lines are joined by `data`; there are none where hasData is false.
pub record SseFrame : Type 0 where
  pub raw : String
  pub parts : List String
  pub end : FrameEnd
  pub rest : List String

-- strings.TrimSuffix(line, "\r")
unfoldable pub trim_return : String → String
trim_return String.[] = ""
trim_return (String.◌∷◌ c String.[]) = if eqb (code c) 13 then "" else String.◌∷◌ c ""
trim_return (String.◌∷◌ c (String.◌∷◌ d s)) = String.◌∷◌ c (trim_return (String.◌∷◌ d s))

-- The first n characters are taken away.
unfoldable pub skip : ℕ → String → String
skip zero s = s
skip (suc n) String.[] = ""
skip (suc n) (String.◌∷◌ c s) = skip n s

-- What follows "data:", without one space.
unfoldable pub data_part : String → String
unfolding starts_with skip
data_part value = let part = skip 5 value in if starts_with " " part then skip 1 part else part

-- strings.Join(data, "\n")
unfoldable pub join : List String → String
join [] = ""
join (x ∷ []) = x
join (x ∷ (y ∷ ys)) = String.◌++◌ x (String.◌++◌ "\n" (join (y ∷ ys)))

-- A line with its line feed.
abbrev pub add_line : String → String → String
add_line raw line = String.◌++◌ raw (String.◌++◌ line "\n")

-- The loop: `raw` and `parts` are what was read of the frame.
unfoldable pub read_lines : String → List String → List String → String → SseFrame
unfolding trim_return data_part
read_lines raw parts [] tail = record {
  raw = String.◌++◌ raw tail;
  parts = [];
  end = ended;
  rest = [];
}
read_lines raw parts (line ∷ lines) tail =
    let value = trim_return line in
    let after_comment = read_lines (add_line raw line) parts lines tail in
    let after_data = read_lines (add_line raw line) (parts ++ data_part value ∷ []) lines tail in
    if value == ""
    then record { raw = add_line raw line; parts = parts; end = complete; rest = lines }
    else if starts_with ":" value
    then after_comment
    else if starts_with "data:" value
    then after_data
    else record { raw = add_line raw line; parts = []; end = unsupported; rest = lines }

unfoldable pub read_frame : List String → String → SseFrame
unfolding read_lines
read_frame lines tail = read_lines "" [] lines tail
