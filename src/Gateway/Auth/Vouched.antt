-- ===== src/Gateway/Auth/Vouched.antt =====
-- Who is let in: a principal that the store has for the digest of the well-formed token that the
-- headers of the request present.
use Prim.Native.String
use Prim.Native.String.append
use alzette.Shared.{
  String, ◌==◌, ◌≡◌, ◌⊎◌, inl, inr, refl, subst, true, false, ◌||◌, not, Option, some, List, [],
  ◌∷◌, arith, Bool-cases, Option-cases,
}
use alzette.Shared.Space.{is_trimmed}
use alzette.Platform.{Digest, Result, ok, err, unauthenticated, not_found, Principal}
use alzette.Credentials.{strip_prefix, validate_format, token_marker, human_token_marker}
use alzette.Gateway.Reply.{Protocol, chat, responses, anthropic}
use alzette.Gateway.Auth.{
  Headers, has_comma, hide_missing, authenticate_token, authenticate_bearer, authenticate_api_key,
  authenticate_protocol,
}

hide_missing-ok : (r : Result Principal) (p : Principal) → hide_missing r ≡ ok p → r ≡ ok p
hide_missing-ok (ok q) p h = h
hide_missing-ok (err not_found) p h = ground arith
hide_missing-ok (err e) p h = ground arith

unauthenticated_ok : (p : Principal) → Result.err unauthenticated ≡ ok p → ⊥
unauthenticated_ok p h = cc

-- The one value of Authorization bears the token.
abbrev pub Bears : List String → String → Type 0
Bears values token =
    (header : String) × (values ≡ header ∷ [])
    × (has_comma header ≡ false)
    × (strip_prefix "Bearer " header ≡ some token)
    × (is_trimmed token ≡ true)

-- The token is the one value of X-Api-Key, without any of Authorization.
abbrev pub IsApiKey : List String → List String → String → Type 0
IsApiKey tokens values token =
    (tokens ≡ token ∷ [])
    × (values ≡ [])
    × ((token == "") ≡ false)
    × (is_trimmed token ≡ true)
    × (has_comma token ≡ false)

abbrev pub Presents : Headers → Protocol → String → Type 0
Presents h chat token = Bears h.authorization token
Presents h responses token = Bears h.authorization token
Presents h anthropic token =
    ((h.api_key ≡ []) × Bears h.authorization token) ⊎ IsApiKey h.api_key h.authorization token

strip_prefix_append :
    (marker token : String) → strip_prefix marker (String.◌++◌ marker token) ≡ some token
unfolding strip_prefix
strip_prefix_append String.[] token = rw (append.nil token) refl
strip_prefix_append (String.◌∷◌ c marker) token =
    rw (append.cons c marker token, strip_prefix_append marker token) (ground arith)

Bears-bearer :
    (token other : String) → Bears (String.◌++◌ "Bearer " token ∷ []) other → other ≡ token
Bears-bearer token other (header, e, comma, found, trimmed) =
    let same : String.◌++◌ "Bearer " token ≡ header = ground (arith, e) in
    let again : strip_prefix "Bearer " header ≡ some token =
      subst (λ x. strip_prefix "Bearer " x ≡ some token) same
        (strip_prefix_append "Bearer " token) in
    cc

module _ (sha256 : String → Digest) (find_key : Digest → Result Principal)
    (find_human : Option (Digest → Result Principal)) where
  -- The store returned the principal for the digest of the token, which has the form of an API key,
  -- or that of a person's token.
  abbrev pub IsKnown : String → Principal → Type 0
  IsKnown token p =
      ((validate_format token token_marker ≡ true) × (find_key (sha256 token) ≡ ok p))
      ⊎ ((find : Digest → Result Principal) × (find_human ≡ some find)
          × (validate_format token human_token_marker ≡ true)
          × (find (sha256 token) ≡ ok p))

  -- The headers of a request of the protocol present a token that the principal is known by.
  abbrev pub IsVouched : Headers → Protocol → Principal → Type 0
  IsVouched h protocol p = (token : String) × Presents h protocol token × IsKnown token p

  abbrev IsBorne : List String → Principal → Type 0
  IsBorne values p = (token : String) × Bears values token × IsKnown token p

  refused : (values : List String) (p : Principal) → err unauthenticated ≡ ok p → IsBorne values p
  refused values p h = absurd (unauthenticated_ok p h)

  authenticate_token-IsKnown :
      (token : String) (p : Principal)
      → authenticate_token sha256 find_key find_human token ≡ ok p
      → IsKnown token p
  unfolding authenticate_token
  authenticate_token-IsKnown token p h = elim (Option-cases (strip_prefix token_marker token)) [
    | inr (rest, y) ↦ elim (Bool-cases (validate_format token token_marker)) [
      | inr n ↦ absurd (unauthenticated_ok p (rw (y, n, authenticate_token) at h))
      | inl form ↦ inl (form, hide_missing-ok _ p (rw (y, form, authenticate_token) at h))
    ]
    | inl n ↦ elim (Option-cases (strip_prefix human_token_marker token)) [
      | inl m ↦ absurd (unauthenticated_ok p (rw (n, m, authenticate_token) at h))
      | inr (rest, y) ↦ elim (Bool-cases (validate_format token human_token_marker)) [
        | inr m ↦ absurd (unauthenticated_ok p (rw (n, y, m, authenticate_token) at h))
        | inl form ↦ elim (Option-cases find_human) [
          | inl m ↦ absurd (unauthenticated_ok p (rw (n, y, form, m, authenticate_token) at h))
          | inr (find, f) ↦
              inr (find, f, form, hide_missing-ok _ p (rw (n, y, form, f, authenticate_token) at h))
        ]
      ]
    ]
  ]

  authenticate_bearer-IsBorne :
      (values : List String) (p : Principal)
      → authenticate_bearer sha256 find_key find_human values ≡ ok p
      → IsBorne values p
  unfolding authenticate_bearer
  authenticate_bearer-IsBorne [] p = refused [] p
  authenticate_bearer-IsBorne (header ∷ more ∷ rest) p = refused (header ∷ more ∷ rest) p
  authenticate_bearer-IsBorne (header ∷ []) p = elim (Bool-cases (has_comma header)) [
    | inl y ↦ rw (y, authenticate_bearer) (refused (header ∷ []) p)
    | inr y ↦ elim (Option-cases (strip_prefix "Bearer " header)) [
      | inl n ↦ rw (y, n, authenticate_bearer) (refused (header ∷ []) p)
      | inr (token, z) ↦ elim (Bool-cases (is_trimmed token)) [
        | inr n ↦ rw (y, z, n, authenticate_bearer) (refused (header ∷ []) p)
        | inl trimmed ↦
            rw (y, z, trimmed, authenticate_bearer)
              (λ h. (token, (header, refl, y, z, trimmed), authenticate_token-IsKnown token p h))
      ]
    ]
  ]

  authenticate_api_key-IsVouched :
      (tokens values : List String) (p : Principal)
      → authenticate_api_key sha256 find_key find_human tokens values ≡ ok p
      → (token : String) × IsApiKey tokens values token × IsKnown token p
  unfolding authenticate_api_key
  authenticate_api_key-IsVouched [] values p = λ h. absurd (unauthenticated_ok p h)
  authenticate_api_key-IsVouched (token ∷ other ∷ more) values p =
      λ h. absurd (unauthenticated_ok p h)
  authenticate_api_key-IsVouched (token ∷ []) (value ∷ values) p =
      λ h. absurd (unauthenticated_ok p h)
  authenticate_api_key-IsVouched (token ∷ []) [] p =
      elim (Bool-cases (token == "" || (not (is_trimmed token) || has_comma token))) [
        | inl y ↦ rw (y, authenticate_api_key) (λ h. absurd (unauthenticated_ok p h))
        | inr y ↦
            rw (y, authenticate_api_key)
              (λ h.
                let (other, borne, known) =
                  authenticate_bearer-IsBorne (String.◌++◌ "Bearer " token ∷ []) p h in
                (
                  token,
                  (refl, refl, ground (arith, y), ground (arith, y), ground (arith, y)),
                  subst (λ t. IsKnown t p) (Bears-bearer token other borne) known,
                ))
      ]

  presented_token :
      (tokens values : List String) (p : Principal)
      → (elim tokens as (λ _. Result Principal) [
        | [] ↦ authenticate_bearer sha256 find_key find_human values
        | token ∷ more ↦ authenticate_api_key sha256 find_key find_human (token ∷ more) values
      ])
        ≡ ok p
      → (token : String) × (((tokens ≡ []) × Bears values token) ⊎ IsApiKey tokens values token)
        × IsKnown token p
  presented_token [] values p h =
      let (token, borne, known) = authenticate_bearer-IsBorne values p h in
      (token, inl (refl, borne), known)
  presented_token (token ∷ more) values p h =
      let (t, key, known) = authenticate_api_key-IsVouched (token ∷ more) values p h in
      (t, inr key, known)

  -- A request is only ever authenticated as a principal that the store returned for the digest of
  -- a token that its headers present: the token after "Bearer " in the one value of Authorization, or,
  -- for the protocol of Anthropic, the one value of X-Api-Key if there is no Authorization. The token
  -- has no space around it, the value no comma, and the token has the form of an API key, or of a
  -- person's token where the store knows people.
  pub authenticate_protocol-IsVouched :
      (h : Headers) (protocol : Protocol) (p : Principal)
      → authenticate_protocol sha256 find_key find_human h protocol ≡ ok p
      → IsVouched h protocol p
  unfolding authenticate_protocol
  authenticate_protocol-IsVouched h chat p = authenticate_bearer-IsBorne h.authorization p
  authenticate_protocol-IsVouched h responses p = authenticate_bearer-IsBorne h.authorization p
  authenticate_protocol-IsVouched h anthropic p = presented_token h.api_key h.authorization p
