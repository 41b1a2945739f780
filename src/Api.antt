-- ===== src/Api.antt =====
-- internal/api: the HTTP handlers and the middleware in front of them. A response is a value; JSON
-- bodies that were bound from a request are parameters.
pub mod Auth
pub mod Attachments
pub mod Mails
pub mod Configs
pub mod Status
pub mod Routes
use email_proxy.Prelude.{ℕ, Bool, List, Option}
use email_proxy.Text.{Text}
use email_proxy.Models.{Mail, MailStatusCache, ClientToken}

-- A value in the claims of a JWT. Elements of a list that are no text are `none`.
pub data Claim : Type 0 where
  text_claim : Text → Claim
  list_claim : List (Option Text) → Claim
  other_claim : Claim

-- What the middleware stores in gin's context.
pub record Context : Type 0 where
  pub client_id : Option Claim
  pub client_name : Option Claim
  pub department : Option Claim
  pub permissions : Option Claim
  pub client_token_id : Option Claim

-- One entry of the results of a batch.
pub data BatchEntry : Type 0 where
  entry_queued : (mail_id : Text) → BatchEntry
  entry_failed : (mail_id : Option Text) (error : Text) → BatchEntry

-- A sender configuration in a response.
pub record SenderConfigResponse : Type 0 where
  pub id : Text
  pub client_token_id : Text
  pub sender_email : Text
  pub ms_tenant_id : Text
  pub ms_client_id : Text
  pub ms_client_secret : Text
  pub is_active : Bool

pub data Response : Type 0 where
  -- the status code, the error code and the message
  failure : ℕ → Text → Text → Response
  mail_queued : (mail_id : Text) → Response
  mail_cancelled : (mail_id : Text) → Response
  batch : (batch_id : Text) (results : List BatchEntry) → Response
  status_cached : MailStatusCache → Response
  status_stored : Mail → Response
  token_created : (token client_id : Text) → Response
  token_found : ClientToken → Response
  token_list : List ClientToken → Response
  token_revoked : Response
  config_created : SenderConfigResponse → Response
  config_found : SenderConfigResponse → Response
  config_list : List SenderConfigResponse → Response
  config_deleted : Response
  history : (total page limit : ℕ) (mails : List Mail) → Response
  -- the status code, and what is said of PostgreSQL and of KeyDB
  health : ℕ → (is_healthy postgresql_ok keydb_ok : Bool) → Response
  -- a panic, which gin.Recovery turns into status 500
  panic : Response
