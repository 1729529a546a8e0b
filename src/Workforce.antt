-- ===== src/Workforce.antt =====
-- internal/workforce/workforce.go: the service over the store of people, groups and invitations. The
-- store, the hash, strings.ToLower and mail.ParseAddress are parameters.
pub mod Types
pub mod Input
pub mod Ids
use alzette.Shared.{
  ℕ, ◌+◌, ◌-◌, ◌*◌, String, len, ◌==◌, Bool, ◌||◌, not, Option, none, some, List, [], ltb, length,
  eqb, if◌then◌else◌,
}
use alzette.Shared.Space.{trim_space}
use alzette.Platform.{Time, Digest, Result, ok, err, invalid, unavailable}
use alzette.Platform.Portal.{PortalSession}
use Types.{
  Access, Group, CreateGroupInput, CreateInvitationInput, InvitationDelivery, SetupSession,
  OidcTransaction, FederatedIdentity, InitialOwnerSpec, InitialOwnerResult,
}
use Input.{
  valid_id, valid_slug, valid_username, valid_evidence, valid_email, valid_oidc_subject,
  is_group_name, normalise_ids,
}

-- Store
pub record WorkforceStore (S : Type 0) : Type 0 where
  pub load_access : PortalSession → S → Result Access
  pub load_group : PortalSession → String → S → Result Group
  pub create_group : PortalSession → CreateGroupInput → S → Result Group × S
  pub replace_group_people : PortalSession → String → List String → S → Result (Unit {0}) × S
  pub replace_group_models : PortalSession → String → List String → S → Result (Unit {0}) × S
  pub disable_group : PortalSession → String → S → Result (Unit {0}) × S
  pub create_invitation : PortalSession → CreateInvitationInput → S → Result InvitationDelivery × S
  pub resend_invitation : PortalSession → String → S → Result InvitationDelivery × S
  pub revoke_invitation : PortalSession → String → S → Result (Unit {0}) × S
  pub assign_initial_owner : InitialOwnerSpec → S → Result InitialOwnerResult × S

-- IdentityStore
pub record IdentityStore (S : Type 0) : Type 0 where
  pub begin_invitation_setup : Digest → Time → S → Result SetupSession × S
  pub create_oidc_transaction :
      Digest → Digest → String → String → Time → Time → S → Result (Unit {0}) × S
  pub consume_oidc_transaction : Digest → Time → S → Result OidcTransaction × S
  pub accept_invitation :
      String → FederatedIdentity → Digest → Time → Time → S → Result PortalSession × S

-- Service: `identity` is the store as an IdentityStore, if it is one.
pub record Service (S : Type 0) : Type 0 where
  pub store : WorkforceStore S
  pub identity : Option (IdentityStore S)
  pub sha256 : String → Digest
  pub lower : String → String
  pub parse_address : String → Option String

abbrev pub minute : ℕ
minute = 60 * 1000000000

module _ {S : Type 0} (service : Service S) where
  abbrev pub refuse {ℓ} : {A : Type ℓ} → S → Result A × S
  refuse s = (err invalid, s)

  -- For an identifier that is valid.
  abbrev pub with_id {ℓ} : {A : Type ℓ} → String → S → Result A × S → Result A × S
  with_id id s answer = if not (valid_id id) then refuse s else answer

  -- For identifiers that are valid: `next` gets their normal form.
  abbrev pub with_ids {ℓ} :
      {A : Type ℓ} → List String → S → (List String → Result A × S) → Result A × S
  with_ids values s next = elim (normalise_ids values) [ none ↦ refuse s | some ids ↦ next ids ]

  unfoldable pub access : PortalSession → S → Result Access
  access session s = service.store.load_access session s

  unfoldable pub group : PortalSession → String → S → Result Group
  unfolding valid_id
  group session id s =
      if not (valid_id id) then err invalid else service.store.load_group session id s

  unfoldable pub create_group : PortalSession → CreateGroupInput → S → Result Group × S
  unfolding trim_space normalise_ids is_group_name
  create_group session input s =
      let name = trim_space input.name in
      let description = trim_space input.description in
      with_ids input.route_ids s (λ ids.
        if not (is_group_name name) || ltb 1000 (len description)
        then refuse s
        else service.store.create_group session
            (record { name = name; description = description; route_ids = ids }) s)

  unfoldable pub replace_group_people :
      PortalSession → String → List String → S → Result (Unit {0}) × S
  unfolding valid_id normalise_ids
  replace_group_people session group_id person_ids s =
      with_id group_id s
        (with_ids person_ids s (λ ids. service.store.replace_group_people session group_id ids s))

  unfoldable pub replace_group_models :
      PortalSession → String → List String → S → Result (Unit {0}) × S
  unfolding valid_id normalise_ids
  replace_group_models session group_id route_ids s =
      with_id group_id s
        (with_ids route_ids s (λ ids. service.store.replace_group_models session group_id ids s))

  unfoldable pub disable_group : PortalSession → String → S → Result (Unit {0}) × S
  unfolding valid_id
  disable_group session group_id s =
      with_id group_id s (service.store.disable_group session group_id s)

  -- normaliseEmail
  abbrev pub normalise_email : String → String
  normalise_email value = service.lower (trim_space value)

  unfoldable pub create_invitation :
      PortalSession → CreateInvitationInput → S → Result InvitationDelivery × S
  unfolding trim_space normalise_ids valid_email
  create_invitation session input s =
      let email = normalise_email input.email in
      let display_name = trim_space input.display_name in
      with_ids input.group_ids s (λ ids.
        if not (valid_email service.parse_address email)
          || (ltb 255 (len display_name) || eqb (length ids) 0)
        then refuse s
        else service.store.create_invitation session
            (record { email = email; display_name = display_name; group_ids = ids }) s)

  unfoldable pub resend_invitation : PortalSession → String → S → Result InvitationDelivery × S
  unfolding valid_id
  resend_invitation session id s = with_id id s (service.store.resend_invitation session id s)

  unfoldable pub revoke_invitation : PortalSession → String → S → Result (Unit {0}) × S
  unfolding valid_id
  revoke_invitation session id s = with_id id s (service.store.revoke_invitation session id s)

  unfoldable pub begin_invitation_setup : String → Time → S → Result SetupSession × S
  begin_invitation_setup token now s = elim service.identity [
    | none ↦ (err unavailable, s)
    | some store ↦
        if ltb (len token) 32 || ltb 512 (len token)
        then (err unavailable, s)
        else store.begin_invitation_setup (service.sha256 token) now s
  ]

  unfoldable pub create_oidc_transaction :
      String → String → String → String → Time → S → Result (Unit {0}) × S
  create_oidc_transaction setup_token state nonce verifier now s = elim service.identity [
    | none ↦ refuse s
    | some store ↦
        if ltb (len setup_token) 32
          || (ltb (len state) 32 || (ltb (len nonce) 32 || ltb (len verifier) 43))
        then refuse s
        else store.create_oidc_transaction (service.sha256 setup_token) (service.sha256 state) nonce
            verifier now (now + 10 * minute) s
  ]

  unfoldable pub consume_oidc_transaction : String → Time → S → Result OidcTransaction × S
  consume_oidc_transaction state now s = elim service.identity [
    | none ↦ refuse s
    | some store ↦
        if ltb (len state) 32
        then refuse s
        else store.consume_oidc_transaction (service.sha256 state) now s
  ]

  unfoldable pub accept_invitation :
      String → FederatedIdentity → Digest → Time → Time → S → Result PortalSession × S
  unfolding trim_space valid_id valid_oidc_subject valid_email
  accept_invitation action_session_id given digest expires_at now s =
      let identity : FederatedIdentity = record given {
        email = normalise_email given.email;
        display_name = trim_space given.display_name;
      } in
      elim service.identity [
        | none ↦ refuse s
        | some store ↦
            if not (valid_id action_session_id)
              || (identity.issuer == ""
                  || (ltb 2048 (len identity.issuer)
                      || (not (valid_oidc_subject identity.subject)
                          || (not (valid_email service.parse_address identity.email)
                              || (ltb 255 (len identity.display_name)
                                  || ltb (expires_at - now) (15 * minute))))))
            then refuse s
            else store.accept_invitation action_session_id identity digest expires_at now s
      ]

  unfoldable pub assign_initial_owner : InitialOwnerSpec → S → Result InitialOwnerResult × S
  unfolding trim_space valid_slug valid_username valid_evidence
  assign_initial_owner given s =
      let spec : InitialOwnerSpec = record {
        organisation_slug = trim_space (service.lower given.organisation_slug);
        username = trim_space (service.lower given.username);
        evidence_ref = trim_space given.evidence_ref;
      } in
      if not (valid_slug spec.organisation_slug)
        || (not (valid_username spec.username) || not (valid_evidence spec.evidence_ref))
      then refuse s
      else service.store.assign_initial_owner spec s
