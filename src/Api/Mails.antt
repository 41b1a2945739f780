-- ===== src/Api/Mails.antt =====
-- internal/api/handlers/mail_handler.go: Send. The other handlers are in child modules.
pub mod Batches
pub mod States
pub mod Cancels
pub mod Races
pub mod Sends
pub mod Choices
use email_proxy.Prelude.{ℕ, List, [], ◌++◌, Option, none, some, if◌then◌else◌}
use email_proxy.Prelude.Results.{Result, ok, err}
use email_proxy.Text.{Text, text}
use email_proxy.Models.{Mail, MailJob, queued, failed, set_status_column}
use email_proxy.Router.{in_domain}
use email_proxy.Services.{Env, World}
use email_proxy.Keydb.{set_status}
use email_proxy.Queue.{publish_mail}
use email_proxy.Encryption.{EncryptionService}
use email_proxy.SenderConfig.{get_by_sender_email}
use email_proxy.Api.{Claim, text_claim, Context, Response, failure, mail_queued, panic}
use email_proxy.Api.Attachments.{
  AttachmentRequest, Refusal, invalid_base64, too_large, no_directory, not_saved, Gathered, stored,
  refused, refusal_message, store_attachments,
}

pub record SendRequest : Type 0 where
  pub from : Text
  pub to : List Text
  pub cc : List Text
  pub bcc : List Text
  pub subject : Text
  pub body : Text
  pub html : Text
  pub attachments : List AttachmentRequest
  pub metadata : List (Text × Text)

-- The times and the UUIDs of one request: the date of the storage path, the time of the cache's
-- entry, the UUID of the mail and those of its attachments.
pub record Now : Type 0 where
  pub today : Text
  pub stamp : Text
  pub mail_id : Text
  pub fresh : ℕ → Text

-- `x.(string)` on a value of the context; `none` is a panic.
abbrev pub as_text : Option Claim → Option Text
as_text none = none
as_text (some (text_claim t)) = some t
as_text (some _) = none

unfoldable pub new_mail : Now → SendRequest → Text → Text → Option Text → Mail
new_mail now req client_id client_name sender_config_id = record {
  id = now.mail_id;
  from_address = req.from;
  to_addresses = req.to;
  cc_addresses = req.cc;
  bcc_addresses = req.bcc;
  subject = req.subject;
  body = req.body;
  html = req.html;
  status = queued;
  retry_count = 0;
  error_message = [];
  sent_at = none;
  client_id = client_id;
  client_name = client_name;
  metadata = req.metadata;
  sender_config_id = sender_config_id;
  attachments = [];
}

-- The message for the worker; without a sender configuration its id is empty.
unfoldable pub new_job : Mail → Gathered → MailJob
new_job m g = record {
  mail_id = m.id;
  from_address = m.from_address;
  to_addresses = m.to_addresses;
  cc_addresses = m.cc_addresses;
  bcc_addresses = m.bcc_addresses;
  subject = m.subject;
  body = m.body;
  html = m.html;
  attachments = g.infos;
  metadata = m.metadata;
  retry_count = 0;
  sender_config_id = elim m.sender_config_id [ none ↦ [] | some id ↦ id ];
}

abbrev both : Option Text → Option Text → Option (Text × Text)
both none _ = none
both (some a) none = none
both (some a) (some b) = some (a, b)

-- What the search for a sender configuration comes to.
pub data Choice : Type 0 where
  answered : Response → Choice
  chosen : Option Text → Choice

abbrev pub not_configured : Text → Choice
not_configured message = answered (failure 400 (text "sender_not_configured") message)

abbrev unknown_sender : Text → Text
unknown_sender from =
    text "Sender '"
    ++ from
    ++ text
        "' is not configured for this client. Please configure sender in /api/v1/auth/sender-config first."

-- How the common part of Send and processSingleMail ends.
pub data Ending : Type 0 where
  refusal : Refusal → Ending
  not_created : Ending
  not_published : Ending
  done : Ending

abbrev refusal_code : Refusal → ℕ
refusal_code (invalid_base64 _) = 400
refusal_code (too_large _) = 400
refusal_code no_directory = 500
refusal_code not_saved = 500

abbrev refusal_error : Refusal → Text
refusal_error (invalid_base64 _) = text "invalid_attachment"
refusal_error (too_large _) = text "attachment_too_large"
refusal_error no_directory = text "storage_error"
refusal_error not_saved = text "storage_error"

module _ (e : Env) where
  -- The configuration that the client stored for its sender.
  unfoldable pub find_stored_config : Context → Text → World e.services → Choice
  find_stored_config c from w = elim (as_text c.client_token_id) [
    | none ↦ answered panic
    | some token ↦ elim (e.platform.parse_uuid token) [
      | err _ ↦ answered (failure 400 (text "invalid_token") (text "Invalid client token"))
      | ok id ↦ elim (get_by_sender_email e id from w) [
        | err _ ↦ not_configured (unknown_sender from)
        | ok config ↦ chosen (some config.id)
      ]
    ]
  ]

  -- The message to the queue, and the status of the mail after it.
  unfoldable pub enqueue : Now → Mail → Gathered → World e.services → World e.services × Ending
  enqueue now m g w =
      let (w', no_queue) = publish_mail e (new_job m g) w in
      elim no_queue [
        | some _ ↦ (
          record w' { db = (e.services.update_mail m.id (set_status_column failed) w'.db).0 },
          not_published,
        )
        | none ↦ ((set_status e now.stamp m.id (text "queued") 0 [] w').0, done)
      ]

  unfoldable pub create_and_enqueue :
      Now → Mail → Gathered → World e.services → World e.services × Ending
  create_and_enqueue now m g w =
      let row = record m { attachments = g.rows } in
      let (db, no_row) = e.services.create_mail row w.db in
      let created = record w { db = db } in
      elim no_row [ some _ ↦ (created, not_created) | none ↦ enqueue now row g created ]

  -- The attachments, the row, the message and the cached status of a mail.
  unfoldable pub submit : Now → Mail → SendRequest → World e.services → World e.services × Ending
  submit now m req w =
      let (w', result) =
        store_attachments e now.today m.id now.fresh req.attachments
          (record { rows = []; infos = [] }) w in
      elim result [ refused r ↦ (w', refusal r) | stored g ↦ create_and_enqueue now m g w' ]

  unfoldable pub respond : Mail → Ending → Response
  respond m (refusal r) = failure (refusal_code r) (refusal_error r) (refusal_message e r)
  respond m not_created = failure 500 (text "database_error") (text "Failed to create mail record")
  respond m not_published = failure 500 (text "queue_error") (text "Failed to queue mail")
  respond m done = mail_queued m.id

  -- Which sender configuration a mail uses: the answer that ends the request, or the id of the
  -- configuration, which is `none` for a sender outside the organization. `service` is nil without
  -- an encryption key.
  unfoldable pub find_sender_config :
      Option EncryptionService → Context → Text → World e.services → Choice
  find_sender_config service c from w =
      if in_domain e.platform.unicode_lower from e.config.org_email_domain
      then (elim service [
        | none ↦ not_configured (text "Sender config service not available")
        | some _ ↦ find_stored_config c from w
      ])
      else chosen none

  -- `Send`, with what binding the request's JSON returned.
  unfoldable pub send :
      Option EncryptionService
      → Context
      → Now
      → Result SendRequest
      → World e.services
      → World e.services × Response
  send service c now (err message) w = (w, failure 400 (text "validation_error") message)
  send service c now (ok req) w = elim (find_sender_config service c req.from w) [
    | answered r ↦ (w, r)
    | chosen config_id ↦ elim (both (as_text c.client_id) (as_text c.client_name)) [
      | none ↦ (w, panic)
      | some (client_id, client_name) ↦
          let m = new_mail now req client_id client_name config_id in
          let (w', ending) = submit now m req w in (w', respond m ending)
    ]
  ]
