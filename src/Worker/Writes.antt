-- ===== src/Worker/Writes.antt =====
-- What each write of the handler does to the row, to the cached status and to the queues.
use mathlib.Core.Option
use email_proxy.Prelude.{◌≡◌, refl, [], ◌∷◌, ◌++◌, some}
use email_proxy.Text.{Text, text}
use email_proxy.Text.Laws.{text_eq_refl}
use email_proxy.Models.{Mail, processing, sent, failed, MailJob, set_status_column, apply_update}
use email_proxy.Services.{Env, World, IsReliable}
use email_proxy.Keydb.{set_status}
use email_proxy.Queue.{publish}
use email_proxy.Worker.{
  Moment, update_row, note_status, mark_processing, mark_sent, give_up, schedule_retry,
}
use email_proxy.Worker.Views.{
  row_of, cached_of, status_json, row_of-note_status, row_of-update_row, cached_of-note_status,
}

pub broker-mark_processing :
    (e : Env) (now : Moment) (job : MailJob) (w : World e.services)
    → (mark_processing e now job w).broker ≡ w.broker
unfolding mark_processing update_row note_status set_status
broker-mark_processing e now job w = refl

module _ (e : Env) (r : IsReliable e.services) (now : Moment) (job : MailJob) where
  pub row_of-mark_processing :
      (w : World e.services)
      → row_of e job.mail_id (mark_processing e now job w)
        ≡ Option.map (apply_update (set_status_column processing)) (row_of e job.mail_id w)
  unfolding mark_processing
  row_of-mark_processing w = simp (row_of-note_status, row_of-update_row e r)

  pub row_of-mark_sent :
      (w : World e.services)
      → row_of e job.mail_id (mark_sent e now job w)
        ≡ Option.map
            (λ (mail : Mail). record mail { status = sent; sent_at = some now.instant })
            (row_of e job.mail_id w)
  unfolding mark_sent
  row_of-mark_sent w = simp (row_of-note_status, row_of-update_row e r)

  pub row_of-give_up :
      (cause : Text) (w : World e.services)
      → row_of e job.mail_id (give_up e now job cause w)
        ≡ Option.map
            (λ (mail : Mail). record mail {
              status = failed;
              retry_count = job.retry_count;
              error_message = cause;
            })
            (row_of e job.mail_id w)
  unfolding give_up publish
  row_of-give_up cause w = simp (row_of-note_status, row_of-update_row e r)

  pub row_of-schedule_retry :
      (w : World e.services)
      → row_of e job.mail_id (schedule_retry e now job w).world
        ≡ Option.map
            (λ (mail : Mail). record mail { retry_count = job.retry_count })
            (row_of e job.mail_id w)
  unfolding schedule_retry
  row_of-schedule_retry w = simp (row_of-note_status, row_of-update_row e r)

  pub cached_of-mark_sent :
      (w : World e.services)
      → cached_of e job.mail_id (mark_sent e now job w)
        ≡ some (status_json e now job.mail_id (text "sent") job.retry_count [])
  unfolding mark_sent
  cached_of-mark_sent w = cached_of-note_status e r now job.mail_id (text "sent") _ _ _

  pub cached_of-give_up :
      (cause : Text) (w : World e.services)
      → cached_of e job.mail_id (give_up e now job cause w)
        ≡ some (status_json e now job.mail_id (text "failed") job.retry_count cause)
  unfolding give_up
  cached_of-give_up cause w = cached_of-note_status e r now job.mail_id (text "failed") _ _ _

  pub cached_of-schedule_retry :
      (w : World e.services)
      → cached_of e job.mail_id (schedule_retry e now job w).world
        ≡ some (status_json e now job.mail_id (text "queued") job.retry_count [])
  unfolding schedule_retry
  cached_of-schedule_retry w = cached_of-note_status e r now job.mail_id (text "queued") _ _ _

  -- The failed queue gets the job behind what it held.
  pub waiting-give_up :
      (cause : Text) (w : World e.services)
      → e.services.waiting e.config.failed_queue_name (give_up e now job cause w).broker
        ≡ e.services.waiting e.config.failed_queue_name w.broker ++ e.platform.marshal_job job ∷ []
  unfolding give_up update_row note_status set_status publish
  waiting-give_up cause w =
      rw (
        e.services.waiting-publish,
        r.publishes _ w.broker,
        text_eq_refl e.config.failed_queue_name,
      )
