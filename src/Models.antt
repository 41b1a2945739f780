-- ===== src/Models.antt =====
-- internal/models/mail.go, internal/models/client.go and internal/models/email_sender_config.go:
-- the rows of the database, the message of the queue, and the value of the status cache.
-- A UUID is its canonical text. The columns that gorm fills by itself (CreatedAt, UpdatedAt) are
-- left out. A nil slice and an empty one are the same list.
use email_proxy.Prelude.{ℕ, Bool, false, ◌||◌, List, Option, none, some, if◌then◌else◌}
use email_proxy.Text.{Text, text, text_eq}

pub data MailStatus : Type 0 where
  queued processing sent failed cancelled : MailStatus

pub MailStatus-discrete : Discrete MailStatus
MailStatus-discrete = hlevel

-- The constants' values, which the status cache stores.
abbrev pub status_text : MailStatus → Text
status_text queued = text "queued"
status_text processing = text "processing"
status_text sent = text "sent"
status_text failed = text "failed"
status_text cancelled = text "cancelled"

pub record Attachment : Type 0 where
  pub id : Text
  pub mail_id : Text
  pub filename : Text
  pub content_type : Text
  pub size_bytes : ℕ
  pub storage_path : Text

pub record Mail : Type 0 where
  pub id : Text
  pub from_address : Text
  pub to_addresses : List Text
  pub cc_addresses : List Text
  pub bcc_addresses : List Text
  pub subject : Text
  pub body : Text
  pub html : Text
  pub status : MailStatus
  pub retry_count : ℕ
  pub error_message : Text
  pub sent_at : Option ℕ
  pub client_id : Text
  pub client_name : Text
  pub metadata : List (Text × Text)
  pub sender_config_id : Option Text
  pub attachments : List Attachment

pub record AttachmentInfo : Type 0 where
  pub filename : Text
  pub content_type : Text
  pub size_bytes : ℕ
  pub storage_path : Text

pub record MailJob : Type 0 where
  pub mail_id : Text
  pub from_address : Text
  pub to_addresses : List Text
  pub cc_addresses : List Text
  pub bcc_addresses : List Text
  pub subject : Text
  pub body : Text
  pub html : Text
  pub attachments : List AttachmentInfo
  pub metadata : List (Text × Text)
  pub retry_count : ℕ
  pub sender_config_id : Text

pub record MailStatusCache : Type 0 where
  pub mail_id : Text
  pub status : Text
  pub retry_count : ℕ
  pub last_updated : Text
  pub error_message : Text

pub record ClientToken : Type 0 where
  pub id : Text
  pub client_id : Text
  pub client_name : Text
  pub department : Text
  pub permissions : List Text
  pub token_hash : Text
  pub revoked_at : Option ℕ
  pub is_active : Bool

-- The condition `client_id = ? OR id = ?`, whose second half is left out without a UUID.
abbrev pub is_named : Text → Option Text → ClientToken → Bool
is_named name none t = text_eq t.client_id name
is_named name (some id) t = text_eq t.client_id name || text_eq t.id id

-- A row after the update of RevokeToken.
abbrev pub revoked_if_named : Text → Option Text → ℕ → ClientToken → ClientToken
revoked_if_named name id now t =
    if is_named name id t then record t { is_active = false; revoked_at = some now } else t

pub record EmailSenderConfig : Type 0 where
  pub id : Text
  pub client_token_id : Text
  pub sender_email : Text
  pub ms_tenant_id : Text
  pub ms_client_id : Text
  pub ms_client_secret_encrypted : Text
  pub is_active : Bool

-- The columns that a call of gorm's Update or Updates on a mail writes.
pub record MailUpdate : Type 0 where
  pub status : Option MailStatus
  pub retry_count : Option ℕ
  pub error_message : Option Text
  pub sent_at : Option (Option ℕ)

abbrev column {ℓ} : {A : Type ℓ} → Option A → A → A
column none old = old
column (some new) old = new

abbrev pub apply_update : MailUpdate → Mail → Mail
apply_update u m = record m {
  status = column u.status m.status;
  retry_count = column u.retry_count m.retry_count;
  error_message = column u.error_message m.error_message;
  sent_at = column u.sent_at m.sent_at;
}

-- Update("status", s)
abbrev pub set_status_column : MailStatus → MailUpdate
set_status_column s = record {
  status = some s;
  retry_count = none;
  error_message = none;
  sent_at = none;
}
