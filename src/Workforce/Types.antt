-- ===== src/Workforce/Types.antt =====
-- internal/workforce/workforce.go: people, groups, invitations and what they may use.
use alzette.Shared.{String, Bool, List}
use alzette.Platform.{Time}

pub record ModelAccess : Type 0 where
  pub route_id : String
  pub alias : String
  pub project : String
  pub environment : String

pub record GroupReference : Type 0 where
  pub id : String
  pub name : String

pub record PersonReference : Type 0 where
  pub id : String
  pub display_name : String
  pub email : String
  pub relationship : String

pub record Person : Type 0 where
  pub id : String
  pub display_name : String
  pub email : String
  pub relationship : String
  pub enabled : Bool
  pub groups : List GroupReference
  pub effective_models : List ModelAccess

pub record Group : Type 0 where
  pub id : String
  pub name : String
  pub description : String
  pub enabled : Bool
  pub project : String
  pub environment : String
  pub people : List PersonReference
  pub models : List ModelAccess

pub record Invitation : Type 0 where
  pub id : String
  pub email : String
  pub display_name : String
  pub status : String
  pub groups : List GroupReference
  pub created_at : Time
  pub expires_at : Time
  pub delivery : String

pub record Access : Type 0 where
  pub configured : Bool
  pub relationship : String
  pub can_manage : Bool
  pub current_person_id : String
  pub people : List Person
  pub groups : List Group
  pub available_models : List ModelAccess
  pub invitations : List Invitation

pub record CreateInvitationInput : Type 0 where
  pub email : String
  pub display_name : String
  pub group_ids : List String

pub record InvitationDelivery : Type 0 where
  pub invitation : Invitation
  pub token : String

pub record SetupSession : Type 0 where
  pub token : String
  pub expires_at : Time

pub record OidcTransaction : Type 0 where
  pub action_session_id : String
  pub nonce : String
  pub verifier : String

pub record FederatedIdentity : Type 0 where
  pub issuer : String
  pub subject : String
  pub email : String
  pub display_name : String

pub record CreateGroupInput : Type 0 where
  pub name : String
  pub description : String
  pub route_ids : List String

pub record InitialOwnerSpec : Type 0 where
  pub organisation_slug : String
  pub username : String
  pub evidence_ref : String

pub record InitialOwnerResult : Type 0 where
  pub organisation_id : String
  pub person_id : String
  pub user_id : String
  pub username : String
  pub ownership_id : String
  pub created : Bool
