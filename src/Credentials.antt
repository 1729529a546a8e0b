-- ===== src/Credentials.antt =====
-- internal/credentials/credentials.go: tokens of API keys and of people, how they are made from
-- random bytes and how their form is checked. A source of random bytes is the list of the bytes
-- that it has left.
use Prim.Native.Char.{Char, code}
use Prim.Native.String.{◌++◌}
use alzette.Shared.{
  ℕ, zero, suc, ◌+◌, ◌*◌, ◌/◌, ◌%◌, String, len, Bool, true, false, ◌&&◌, ◌||◌, Option, none, some,
  List, [], ◌∷◌, leb, eqb, take, length, if◌then◌else◌,
}
use alzette.Platform.{Digest}

abbrev pub token_marker : String
token_marker = "alz_k_"

abbrev pub human_token_marker : String
human_token_marker = "alz_u_"

pub record Key : Type 0 where
  pub token : String
  pub prefix : String
  pub digest : Digest

abbrev pub hex_alphabet : String
hex_alphabet = "0123456789abcdef"

abbrev pub base64_alphabet : String
base64_alphabet = "ABCDEFGHIJKLMNOPQRSTUVWXYZabcdefghijklmnopqrstuvwxyz0123456789-_"

-- The n-th character of an alphabet, as a text; its last one past the end.
unfoldable pub symbol : String → ℕ → String
symbol String.[] n = ""
symbol (String.◌∷◌ c String.[]) n = String.◌∷◌ c ""
symbol (String.◌∷◌ c (String.◌∷◌ d s)) zero = String.◌∷◌ c ""
symbol (String.◌∷◌ c (String.◌∷◌ d s)) (suc n) = symbol (String.◌∷◌ d s) n

-- hex.EncodeToString
unfoldable pub hex_encode : List ℕ → String
unfolding symbol
hex_encode [] = ""
hex_encode (b ∷ bs) =
    symbol hex_alphabet (b / 16) ++ (symbol hex_alphabet (b % 16) ++ hex_encode bs)

-- base64.RawURLEncoding.EncodeToString, of a multiple of three bytes: any rest is left out here,
-- and the source encodes 24 bytes.
unfoldable pub base64_encode : List ℕ → String
unfolding symbol
base64_encode (a ∷ b ∷ c ∷ rest) =
    symbol base64_alphabet (a / 4)
    ++ (symbol base64_alphabet (a % 4 * 16 + b / 16)
        ++ (symbol base64_alphabet (b % 16 * 4 + c / 64)
            ++ (symbol base64_alphabet (c % 64) ++ base64_encode rest)))
base64_encode _ = ""

abbrev pub drop : ℕ → List ℕ → List ℕ
drop zero xs = xs
drop (suc n) [] = []
drop (suc n) (x ∷ xs) = drop n xs

-- io.ReadFull: the next n bytes and what is left, or an error if there are fewer.
unfoldable pub read_full : ℕ → List ℕ → Option (List ℕ × List ℕ)
read_full n source = if leb n (length source) then some (take n source, drop n source) else none

-- `sha256` is crypto/sha256.
unfoldable pub generate_from : (String → Digest) → List ℕ → String → Option (Key × List ℕ)
unfolding hex_encode base64_encode read_full
generate_from sha256 source marker = elim (read_full 8 source) [
  | none ↦ none
  | some (public, rest) ↦ elim (read_full 24 rest) [
    | none ↦ none
    | some (secret, left) ↦
        let prefix = marker ++ hex_encode public in
        let token = prefix ++ ("." ++ base64_encode secret) in
        some (record { token = token; prefix = prefix; digest = sha256 token }, left)
  ]
]

-- What is left of a text behind a prefix: strings.HasPrefix and strings.TrimPrefix.
unfoldable pub strip_prefix : String → String → Option String
strip_prefix String.[] s = some s
strip_prefix (String.◌∷◌ c p) String.[] = none
strip_prefix (String.◌∷◌ c p) (String.◌∷◌ d s) =
    let rest = strip_prefix p s in if eqb (code c) (code d) then rest else none

-- A digit that hex.DecodeString takes.
unfoldable pub is_hex : Char → Bool
is_hex c =
    (leb b'0' (code c) && leb (code c) b'9')
    || ((leb b'a' (code c) && leb (code c) b'f') || (leb b'A' (code c) && leb (code c) b'F'))

-- A character of the URL alphabet. The decoder also skips line breaks, but a text with one decodes
-- to fewer than 24 bytes.
unfoldable pub is_base64 : Char → Bool
is_base64 c =
    (leb b'A' (code c) && leb (code c) b'Z')
    || ((leb b'a' (code c) && leb (code c) b'z')
        || ((leb b'0' (code c) && leb (code c) b'9') || (eqb (code c) b'-' || eqb (code c) b'_')))

-- Just n characters that pass the test, at the end of the text.
unfoldable pub spans : (Char → Bool) → ℕ → String → Bool
spans p zero String.[] = true
spans p zero (String.◌∷◌ c s) = false
spans p (suc n) String.[] = false
spans p (suc n) (String.◌∷◌ c s) = p c && spans p n s

-- n characters that pass the test, and then the rest.
unfoldable pub begins : (Char → Bool) → ℕ → (String → Bool) → String → Bool
begins p zero rest s = rest s
begins p (suc n) rest String.[] = false
begins p (suc n) rest (String.◌∷◌ c s) = p c && begins p n rest s

unfoldable pub dot_then : (String → Bool) → String → Bool
dot_then rest String.[] = false
dot_then rest (String.◌∷◌ c s) = eqb (code c) b'.' && rest s

-- True where the source returns no error. Each part is ASCII, so bytes are characters in it.
unfoldable pub validate_format : String → String → Bool
unfolding strip_prefix is_hex is_base64 spans begins dot_then
validate_format token marker = elim (strip_prefix marker token) [
  | none ↦ false
  | some rest ↦
      eqb (len token) (len marker + 16 + 1 + 32)
      && begins is_hex 16 (dot_then (spans is_base64 32)) rest
]
