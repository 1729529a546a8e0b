-- ===== src/Gateway/Auth.antt =====
-- authenticateProtocol of protocol.go and Authenticate of internal/api/api.go: which principal, if
-- any, the headers of a request stand for.
pub mod Vouched
use Prim.Native.Char.{Char, code}
use Prim.Native.String
use alzette.Shared.{
  String, ◌==◌, Bool, true, false, ◌&&◌, ◌||◌, not, Option, none, some, List, [], ◌∷◌, leb, eqb,
  if◌then◌else◌,
}
use alzette.Shared.Space.{is_trimmed}
use alzette.Platform.{Digest, Result, err, unauthenticated, not_found, Principal}
use alzette.Credentials.{strip_prefix, validate_format, token_marker, human_token_marker}
use alzette.Gateway.Reply.{Protocol, anthropic}

-- strings.Contains(value, ",")
unfoldable pub has_comma : String → Bool
has_comma String.[] = false
has_comma (String.◌∷◌ c s) = eqb (code c) b',' || has_comma s

-- The values of the two headers, in order.
pub record Headers : Type 0 where
  pub authorization : List String
  pub api_key : List String

-- An unknown credential is the same error as a missing one.
abbrev pub hide_missing : Result Principal → Result Principal
hide_missing (err not_found) = err unauthenticated
hide_missing r = r

module _ (sha256 : String → Digest) (find_key : Digest → Result Principal)
    (find_human : Option (Digest → Result Principal)) where
  unfoldable pub authenticate_token : String → Result Principal
  unfolding strip_prefix validate_format
  authenticate_token token =
      let human = elim find_human as (λ _. Result Principal) [
        | none ↦ err unauthenticated
        | some find ↦ hide_missing (find (sha256 token))
      ] in
      elim (strip_prefix token_marker token) [
        | some rest ↦
            if not (validate_format token token_marker)
            then err unauthenticated
            else hide_missing (find_key (sha256 token))
        | none ↦ elim (strip_prefix human_token_marker token) [
          | some rest ↦
              if not (validate_format token human_token_marker) then err unauthenticated else human
          | none ↦ err unauthenticated
        ]
      ]

  -- api.Authenticate, by the values of Authorization
  unfoldable pub authenticate_bearer : List String → Result Principal
  unfolding authenticate_token is_trimmed has_comma
  authenticate_bearer (header ∷ []) =
      if has_comma header then err unauthenticated else elim (strip_prefix "Bearer " header) [
        | none ↦ err unauthenticated
        | some token ↦
            if not (is_trimmed token) then err unauthenticated else authenticate_token token
      ]
  authenticate_bearer _ = err unauthenticated

  -- The branch of X-Api-Key. The token is set as the one value of Authorization.
  unfoldable pub authenticate_api_key : List String → List String → Result Principal
  unfolding authenticate_bearer
  authenticate_api_key (token ∷ []) [] =
      if token == "" || (not (is_trimmed token) || has_comma token)
      then err unauthenticated
      else authenticate_bearer (String.◌++◌ "Bearer " token ∷ [])
  authenticate_api_key _ _ = err unauthenticated

  unfoldable pub authenticate_protocol : Headers → Protocol → Result Principal
  unfolding authenticate_api_key
  authenticate_protocol h anthropic = elim h.api_key [
    | [] ↦ authenticate_bearer h.authorization
    | token ∷ more ↦ authenticate_api_key (token ∷ more) h.authorization
  ]
  authenticate_protocol h _ = authenticate_bearer h.authorization
