-- ===== src/Gateway/Stream/Frame/Framing.antt =====
-- The frames as they are sent, and readSSEFrame, which reads them back.
use alzette.Shared.{
  append_nil, String, ◌==◌, ◌≡◌, ◌∙◌, ap, refl, eq_iff, inl, inr, Bool-cases, true, false, List, [],
  ◌∷◌, ◌++◌, All,
}
use alzette.Shared.Space.{starts_with}
use alzette.Gateway.Stream.Frame.{
  complete, trim_return, skip, data_part, add_line, read_lines, read_frame,
}

-- The lines of a frame: a data line for each part, and the empty line.
abbrev pub data_line : String → String
data_line p =
    String.◌∷◌ "d"
      (String.◌∷◌ "a" (String.◌∷◌ "t" (String.◌∷◌ "a" (String.◌∷◌ ":" (String.◌∷◌ " " p)))))

unfoldable pub frame_lines : List String → List String → List String
frame_lines [] rest = "" ∷ rest
frame_lines (x ∷ xs) rest = data_line x ∷ frame_lines xs rest

-- The text of a frame.
unfoldable pub frame_text : String → List String → String
frame_text raw [] = add_line raw ""
frame_text raw (x ∷ xs) = frame_text (add_line raw (data_line x)) xs

trim_data_line : (p : String) → trim_return p ≡ p → trim_return (data_line p) ≡ data_line p
unfolding trim_return
trim_data_line String.[] h = refl
trim_data_line (String.◌∷◌ c s) h = rw (h) refl

not_empty : (p : String) → (data_line p == "") ≡ false
unfolding starts_with
not_empty p = elim (Bool-cases (data_line p == "")) [
  | inl y ↦ let e : true ≡ false = ap (starts_with "d") ((eq_iff (data_line p) "").0 y) in absurd cc
  | inr n ↦ n
]

no_comment : (p : String) → starts_with ":" (data_line p) ≡ false
unfolding starts_with
no_comment p = refl

has_data : (p : String) → starts_with "data:" (data_line p) ≡ true
unfolding starts_with
has_data p = refl

data_part-data_line : (p : String) → data_part (data_line p) ≡ p
unfolding data_part skip starts_with
data_part-data_line p = refl

append_one : {A : Type 0} (xs : List A) (y : A) (ys : List A) → (xs ++ y ∷ []) ++ ys ≡ xs ++ y ∷ ys
append_one [] y ys = refl
append_one (x ∷ xs) y ys = rw (append_one xs y ys) refl

-- A data line is read.
read_lines-line :
    (raw line p : String) (parts lines : List String) (tail : String)
    → trim_return line ≡ line
    → (line == "") ≡ false
    → starts_with ":" line ≡ false
    → starts_with "data:" line ≡ true
    → data_part line ≡ p
    → read_lines raw parts (line ∷ lines) tail
      ≡ read_lines (add_line raw line) (parts ++ p ∷ []) lines tail
unfolding read_lines
read_lines-line raw line p parts lines tail trimmed full other mark part =
    rw (read_lines, trimmed, full, other, mark, part) refl

read_lines-empty :
    (raw : String) (parts rest : List String) (tail : String)
    → read_lines raw parts ("" ∷ rest) tail
      ≡ record { raw = add_line raw ""; parts = parts; end = complete; rest = rest }
unfolding read_lines trim_return
read_lines-empty raw parts rest tail = refl

read_lines-frame_lines :
    (raw : String) (parts xs rest : List String) (tail : String)
    → All (λ x. trim_return x ≡ x) xs
    → read_lines raw parts (frame_lines xs rest) tail
      ≡ record { raw = frame_text raw xs; parts = parts ++ xs; end = complete; rest = rest }
unfolding frame_lines frame_text
read_lines-frame_lines raw parts [] rest tail h =
    rw (append_nil parts) (read_lines-empty raw parts rest tail)
read_lines-frame_lines raw parts (x ∷ xs) rest tail h =
    read_lines-line raw (data_line x) x parts (frame_lines xs rest) tail (trim_data_line x h.0)
      (not_empty x) (no_comment x) (has_data x) (data_part-data_line x)
    ∙ read_lines-frame_lines (add_line raw (data_line x)) (parts ++ x ∷ []) xs rest tail h.1
    ∙ ap
        (λ ps. record {
          raw = frame_text (add_line raw (data_line x)) xs;
          parts = ps;
          end = complete;
          rest = rest;
        })
        (append_one parts x xs)

-- Round trip: the lines of a frame with any data lines, none of which ends in a carriage return, are
-- read back as a complete frame with the same data and the same text, whatever follows the frame.
pub read_frame-frame_lines :
    (xs rest : List String) (tail : String)
    → All (λ x. trim_return x ≡ x) xs
    → read_frame (frame_lines xs rest) tail
      ≡ record { raw = frame_text "" xs; parts = xs; end = complete; rest = rest }
unfolding read_frame
read_frame-frame_lines xs rest tail h = read_lines-frame_lines "" [] xs rest tail h
