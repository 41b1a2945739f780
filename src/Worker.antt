-- ===== src/Worker.antt =====
-- internal/worker/consumer.go: one message of the mail queue from its delivery to its settlement.
pub mod Retry
pub mod Views
pub mod Branches
pub mod Writes
pub mod Outcomes
pub mod Frame
pub mod Accounts
pub mod System
pub mod Delivery
pub mod Start
use email_proxy.Prelude.{
  ℕ, ◌+◌, ◌*◌, ◌%◌, ◌^◌, Bool, true, false, [], ◌∷◌, Option, none, some, leb, if◌then◌else◌,
}
use email_proxy.Prelude.Results.{ok, err, ◌>>=◌}
use email_proxy.Text.{Text, text, is_empty}
use email_proxy.Models.{processing, sent, failed, cancelled, MailJob, MailUpdate, set_status_column}
use email_proxy.Services.{Env, World, Publishing}
use email_proxy.Keydb.{set_status}
use email_proxy.Queue.{json_message, publish}
use email_proxy.Encryption.{EncryptionService}
use email_proxy.SenderConfig.{get_decrypted_config}
use email_proxy.Router.{Outcome, accepted, refused, panicked, MailRouter, send_mail}

-- What the consumer sends through. Without an encryption key the service for the stored settings
-- is nil; the last field is `SendMailWithConfig` of the Graph service.
pub record Mailer : Type 0 where
  pub mail_router : MailRouter
  pub sender_config_service : Option EncryptionService
  pub send_mail_with_config : MailJob → Text → Text → Text → Outcome

-- time.Now(), as the status cache and as the row of a mail store it.
pub record Moment : Type 0 where
  pub formatted : Text
  pub instant : ℕ

-- Ack, Nack with and without requeueing, and a handler that panicked.
pub data Settlement : Type 0 where
  ack requeue drop unsettled : Settlement

-- A goroutine of handleRetry: how long it sleeps, and what it publishes then.
pub record Delayed : Type 0 where
  pub delay : ℕ
  pub message : Publishing

pub record Handled (e : Env) : Type 0 where
  pub world : World e.services
  pub settlement : Settlement
  pub delayed : Option Delayed

-- Where the first part of the handler ends.
pub data Begun (e : Env) : Type 0 where
  stop : Settlement → Begun e
  proceed : MailJob → World e.services → Begun e

-- time.Duration(1<<uint(n)) * time.Second, as the bit pattern of an int64.
unfoldable pub backoff : ℕ → ℕ
backoff n = 2 ^ n % 2 ^ 64 * 1000000000 % 2 ^ 64

module _ (e : Env) where
  -- An update of a row, whose error is ignored.
  unfoldable pub update_row : Text → MailUpdate → World e.services → World e.services
  update_row id columns w = record w { db = (e.services.update_mail id columns w.db).0 }

  -- SetStatus, whose error is ignored.
  unfoldable pub note_status : Moment → Text → Text → ℕ → Text → World e.services → World e.services
  note_status now id status retry_count error_message w =
      (set_status e now.formatted id status retry_count error_message w).0

  unfoldable pub is_cancelled : Text → World e.services → Bool
  is_cancelled id w = elim (e.services.first_mail id w.db) [
    | ok mail ↦ elim mail.status [ cancelled ↦ true | _ ↦ false ]
    | err _ ↦ false
  ]

  unfoldable pub mark_processing : Moment → MailJob → World e.services → World e.services
  mark_processing now job w =
      update_row job.mail_id (set_status_column processing)
        (note_status now job.mail_id (text "processing") job.retry_count [] w)

  -- The branch with settings from the database.
  unfoldable pub send_configured : Mailer → EncryptionService → World e.services → MailJob → Outcome
  send_configured m encryption w job =
      let prepared = do
        id ← e.platform.parse_uuid job.sender_config_id
        get_decrypted_config e encryption id w
      in elim prepared [
        | ok (config, secret) ↦
            m.send_mail_with_config job config.ms_tenant_id config.ms_client_id secret
        | err cause ↦ refused cause
      ]

  unfoldable pub attempt : Mailer → World e.services → MailJob → Outcome
  attempt m w job = elim m.sender_config_service [
    | none ↦ send_mail e.platform.unicode_lower m.mail_router job
    | some encryption ↦
        if is_empty job.sender_config_id
        then send_mail e.platform.unicode_lower m.mail_router job
        else send_configured m encryption w job
  ]

  unfoldable pub mark_sent : Moment → MailJob → World e.services → World e.services
  mark_sent now job w = note_status now job.mail_id (text "sent") job.retry_count [] (
      update_row job.mail_id
        (record {
          status = some sent;
          retry_count = none;
          error_message = none;
          sent_at = some (some now.instant);
        })
        w)

  unfoldable pub give_up : Moment → MailJob → Text → World e.services → World e.services
  give_up now job error_message w =
      note_status now job.mail_id (text "failed") job.retry_count error_message (
        update_row job.mail_id
          (record {
            status = some failed;
            retry_count = some job.retry_count;
            error_message = some error_message;
            sent_at = none;
          })
          (publish e (json_message e.config.failed_queue_name [] (e.platform.marshal_job job)) w).0)

  -- What the goroutine publishes when its delay is over.
  abbrev pub retry_message : MailJob → Publishing
  retry_message job =
      json_message e.config.mail_queue_name ((text "x-retry-count", job.retry_count) ∷ [])
        (e.platform.marshal_job job)

  unfoldable pub schedule_retry : Moment → MailJob → World e.services → Handled e
  schedule_retry now job w = record {
    world = note_status now job.mail_id (text "queued") job.retry_count [] (
        update_row job.mail_id
          (record {
            status = none;
            retry_count = some job.retry_count;
            error_message = none;
            sent_at = none;
          })
          w);
    settlement = ack;
    delayed = some (record { delay = backoff job.retry_count; message = retry_message job });
  }

  -- job.RetryCount++
  abbrev pub retried : MailJob → MailJob
  retried job = record job { retry_count = job.retry_count + 1 }

  unfoldable pub handle_retry : Moment → MailJob → Text → World e.services → Handled e
  handle_retry now job error_message w =
      if leb e.config.max_retry_count (retried job).retry_count
      then record {
        world = give_up now (retried job) error_message w;
        settlement = ack;
        delayed = none;
      }
      else schedule_retry now (retried job) w

  -- The handler from the attempt to send on.
  unfoldable pub complete : Moment → Mailer → MailJob → World e.services → Handled e
  complete now m job w = elim (attempt m w job) [
    | accepted ↦ record { world = mark_sent now job w; settlement = ack; delayed = none }
    | refused cause ↦ handle_retry now job cause w
    | panicked ↦ record { world = w; settlement = unsettled; delayed = none }
  ]

  -- The handler up to the attempt. A message that is no job is refused without requeueing, a
  -- cancelled mail is acknowledged, and any other job goes on.
  unfoldable pub begin : Moment → Text → World e.services → Begun e
  begin now body w = elim (e.platform.unmarshal_job body) [
    | err _ ↦ stop drop
    | ok job ↦
        if is_cancelled job.mail_id w then stop ack else proceed job (mark_processing now job w)
  ]

  unfoldable pub handle_message : Moment → Moment → Mailer → Text → World e.services → Handled e
  handle_message started ended m body w = elim (begin started body w) [
    | stop settlement ↦ record { world = w; settlement = settlement; delayed = none }
    | proceed job w' ↦ complete ended m job w'
  ]

  -- One round of the loop of a worker goroutine.
  unfoldable pub process_message :
      Bool → Moment → Moment → Mailer → Text → World e.services → Handled e
  process_message is_shutdown started ended m body w =
      if is_shutdown
      then record { world = w; settlement = requeue; delayed = none }
      else handle_message started ended m body w
