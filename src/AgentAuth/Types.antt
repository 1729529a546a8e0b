-- ===== src/AgentAuth/Types.antt =====
-- internal/agentauth/agentauth.go: what a person's agent asks for, and what it gets.
use alzette.Shared.{String, Bool, List, Option}
use alzette.Shared.Int.{ℤ}
use alzette.Platform.{Time, Digest}
use alzette.Credentials.{Key}

-- federation.Identity
pub record Identity : Type 0 where
  pub issuer : String
  pub subject : String
  pub email : String
  pub email_verified : Bool
  pub display_name : String
  pub oauth_client_id : String

pub record Model : Type 0 where
  pub alias : String
  pub display_name : String
  pub capabilities : List String
  pub context_window_tokens : Option ℤ

pub record Context : Type 0 where
  pub membership_id : String
  pub organisation : String
  pub project : String
  pub environment : String
  pub relationship : String
  pub model_aliases : List String
  pub models : List Model

pub record MintInput : Type 0 where
  pub client_instance_id : String
  pub membership_id : String
  pub model_aliases : List String

pub record StoreMintInput : Type 0 where
  pub identity : Identity
  pub client_instance_digest : Digest
  pub idempotency_key_digest : Digest
  pub canonical_request_hash : Digest
  pub membership_id : String
  pub model_aliases : List String
  pub grant_id : String
  pub token_id : String
  pub mint_id : String
  pub credential : Key
  pub now : Time
  pub token_expires_at : Time
  pub grant_expires_at : Time

pub record MintResult : Type 0 where
  pub context : Context
  pub grant_id : String
  pub access_token : String
  pub expires_at : Time
  pub model_aliases : List String

-- The value that is hashed as the canonical request.
pub record Canonical : Type 0 where
  pub schema : String
  pub issuer : String
  pub subject : String
  pub client_id : String
  pub client_instance_id : String
  pub membership_id : String
  pub model_aliases : List String
