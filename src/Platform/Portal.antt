-- ===== src/Platform/Portal.antt =====
-- internal/platform/portal.go: the person behind a session of the portal, and what is probed.
use alzette.Shared.{ℕ, String, Bool, List}
use alzette.Shared.Int.{ℤ}
use alzette.Platform.{Time, Duration}

abbrev pub org_admin : String
org_admin = "org_admin"

abbrev pub project_admin : String
project_admin = "project_admin"

pub record PortalUser : Type 0 where
  pub id : String
  pub username : String
  pub display_name : String

pub record PortalMembership : Type 0 where
  pub id : String
  pub organisation_id : String
  pub organisation_name : String
  pub organisation_slug : String
  pub project_id : String
  pub project_name : String
  pub project_slug : String
  pub environment_id : String
  pub environment_name : String
  pub environment_slug : String
  pub role : String

pub record PortalSession : Type 0 where
  pub id : String
  pub user : PortalUser
  pub current : PortalMembership
  pub memberships : List PortalMembership
  pub authenticated_at : Time
  pub expires_at : Time

pub record ProbeTarget : Type 0 where
  pub id : String
  pub base_url : String
  pub secret_ref : String
  pub provider_model : String
  pub timeout : ℤ
  pub probe_interval : Duration

pub record ProbeObservation : Type 0 where
  pub id : String
  pub target_id : String
  pub observed_at : Time
  pub fresh_until : Time
  pub status : String
  pub credential_available : Bool
  pub http_status : ℕ
  pub error_class : String
  pub latency : Duration
