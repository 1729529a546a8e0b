-- ===== src/AgentAuth.antt =====
-- internal/agentauth/agentauth.go: credentials for a person's agent. The store, the clock, the identifiers,
-- the hash, the decoder of base64 and json.Marshal are parameters; the token is made by Credentials from the
-- random bytes of the world. Metadata and the validator of access tokens are left out.
pub mod Types
pub mod Minting
use alzette.Shared.{
  ℕ, suc, ◌+◌, ◌*◌, String, len, ◌==◌, Bool, true, false, ◌&&◌, ◌||◌, not, Option, none, some, List,
  length, ltb, leb, eqb, if◌then◌else◌,
}
use alzette.Shared.Int.{ℤ}
use alzette.Shared.Space.{all_chars, has_part, trim_space}
use alzette.Shared.Distinct.{normalise}
use alzette.Provisioning.Spec.{is_char, is_alphanumeric}
use alzette.Platform.{Time, Digest, Result, ok, err, invalid, other}
use alzette.Credentials.{Key, generate_from, human_token_marker, strip_prefix}
use Types.{Identity, Context, MintInput, StoreMintInput, MintResult, Canonical}

-- Store
pub record AgentStore (S : Type 0) : Type 0 where
  pub list_agent_contexts : Identity → S → Result (List Context)
  pub mint_agent_credential : StoreMintInput → S → Result MintResult × S
  pub revoke_agent_grant : Identity → String → Digest → Time → S → Result (Unit {0}) × S

pub record Service (S : Type 0) : Type 0 where
  pub store : AgentStore S
  pub now : ℕ → Time
  pub new_id : ℕ → String → Option String
  pub sha256 : String → Digest
  pub decode_base64 : String → Option (List ℕ)
  pub marshal : Canonical → Option String

-- The store, the random bytes to come, and how often an identifier was drawn and the clock was read.
pub record World (S : Type 0) : Type 0 where
  pub store : S
  pub random : List ℕ
  pub draws : ℕ
  pub ticks : ℕ

abbrev pub minute : ℕ
minute = 60 * 1000000000

unfoldable pub valid_alias : String → Bool
unfolding has_part
valid_alias value =
    (leb 1 (len value) && leb (len value) 128)
    && not (
        has_part value " "
        || (has_part value "\t"
            || (has_part value "\r"
                || (has_part value "\n" || (has_part value "/" || has_part value "\\")))))

-- normaliseAliases
unfoldable pub normalise_aliases : List String → Option (List String)
unfolding normalise valid_alias
normalise_aliases values =
    if eqb (length values) 0 || ltb 64 (length values) then none else normalise valid_alias values

unfoldable pub valid_simple_id : String → Bool
unfolding all_chars
valid_simple_id value =
    (leb 3 (len value) && leb (len value) 128)
    && all_chars (λ c. is_alphanumeric c || (is_char b'_' c || is_char b'-' c)) value

unfoldable pub valid_opaque : (String → Option (List ℕ)) → String → String → ℕ → Bool
unfolding strip_prefix
valid_opaque decode value marker minimum =
    if leb (len value) (len marker) || ltb 160 (len value)
    then false
    else elim (strip_prefix marker value) [
      | none ↦ false
      | some body ↦ elim (decode body) [ none ↦ false | some bytes ↦ leb minimum (length bytes) ]
    ]

module _ {S : Type 0} (service : Service S) where
  abbrev pub draw_id : String → World S → Option String × World S
  draw_id prefix w = (service.new_id w.draws prefix, record w { draws = suc w.draws })

  unfoldable pub canonical : Identity → MintInput → List String → Canonical
  canonical identity input aliases = record {
    schema = "alzette.agent-credential.v1";
    issuer = identity.issuer;
    subject = identity.subject;
    client_id = identity.oauth_client_id;
    client_instance_id = input.client_instance_id;
    membership_id = input.membership_id;
    model_aliases = aliases;
  }

  -- What the store gets, given what was drawn.
  unfoldable pub store_input :
      Identity
      → MintInput
      → List String
      → String
      → String
      → Key
      → String
      → String
      → String
      → Time
      → StoreMintInput
  store_input identity input aliases key text credential grant_id token_id mint_id now = record {
    identity = identity;
    client_instance_digest = service.sha256 input.client_instance_id;
    idempotency_key_digest = service.sha256 key;
    canonical_request_hash = service.sha256 text;
    membership_id = input.membership_id;
    model_aliases = aliases;
    grant_id = grant_id;
    token_id = token_id;
    mint_id = mint_id;
    credential = credential;
    now = now;
    token_expires_at = now + 10 * minute;
    grant_expires_at = now + 60 * minute;
  }

  -- From the generated credential on.
  unfoldable pub mint_credential :
      Identity
      → MintInput
      → List String
      → String
      → String
      → Key
      → World S
      → Result MintResult × World S
  unfolding store_input
  mint_credential identity input aliases key text credential w =
      let (grant, w1) = draw_id "agr" w in
      let (token, w2) = draw_id "aut" w1 in
      let (minted, w3) = draw_id "agm" w2 in
      elim grant [
        | none ↦ (err other, w1)
        | some grant_id ↦ elim token [
          | none ↦ (err other, w2)
          | some token_id ↦ elim minted [
            | none ↦ (err other, w3)
            | some mint_id ↦
                let now = service.now w3.ticks in
                let (r, s) =
                  service.store.mint_agent_credential
                    (store_input identity input aliases key text credential grant_id token_id
                      mint_id now)
                    w3.store in
                (r, record w3 { store = s; ticks = suc w3.ticks })
          ]
        ]
      ]

  -- From the valid input on.
  unfoldable pub mint_valid :
      Identity → MintInput → List String → String → World S → Result MintResult × World S
  unfolding canonical mint_credential generate_from
  mint_valid identity input aliases key w =
      elim (service.marshal (canonical identity input aliases)) [
        | none ↦ (err other, w)
        | some text ↦ elim (generate_from service.sha256 w.random human_token_marker) [
          | none ↦ (err other, w)
          | some (credential, rest) ↦
              mint_credential identity input aliases key text credential
                (record w { random = rest })
        ]
      ]

  unfoldable pub mint : Identity → MintInput → String → World S → Result MintResult × World S
  unfolding trim_space normalise_aliases valid_opaque valid_simple_id mint_valid
  mint identity given key w =
      let input : MintInput = record given {
        client_instance_id = trim_space given.client_instance_id;
        membership_id = trim_space given.membership_id;
      } in
      elim (normalise_aliases given.model_aliases) [
        | none ↦ (err invalid, w)
        | some aliases ↦
            if not (valid_opaque service.decode_base64 input.client_instance_id "aci_" 16)
              || (not (valid_simple_id input.membership_id)
                  || not (valid_opaque service.decode_base64 key "agm_" 16))
            then (err invalid, w)
            else mint_valid identity input aliases key w
      ]

  unfoldable pub contexts : Identity → World S → Result (List Context)
  contexts identity w = service.store.list_agent_contexts identity w.store

  unfoldable pub revoke : Identity → String → String → World S → Result (Unit {0}) × World S
  unfolding valid_simple_id valid_opaque
  revoke identity membership_id client_instance_id w =
      if not (valid_simple_id membership_id)
        || not (valid_opaque service.decode_base64 client_instance_id "aci_" 16)
      then (err invalid, w)
      else (let (r, s) =
            service.store.revoke_agent_grant identity membership_id
              (service.sha256 client_instance_id) (service.now w.ticks) w.store in
          (r, record w { store = s; ticks = suc w.ticks }))
