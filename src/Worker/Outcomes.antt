-- ===== src/Worker/Outcomes.antt =====
-- What the handler leaves behind on each of its branches.
use email_proxy.Prelude.{
  ◌+◌, ◌≤◌, ◌<◌, ◌≡◌, refl, ◌∙◌, ap, [], ◌∷◌, ◌++◌, true, false, none, some, leb, lt→leb, le→leb,
}
use email_proxy.Prelude.Results.{ok}
use email_proxy.Text.{Text, text}
use email_proxy.Models.{Mail, processing, sent, failed, MailJob}
use email_proxy.Services.{Env, World, IsReliable}
use email_proxy.Router.{accepted, refused}
use email_proxy.Worker.{
  Moment, Mailer, ack, backoff, is_cancelled, mark_processing, attempt, retry_message,
  schedule_retry, retried, handle_retry, complete, handle_message,
}
use email_proxy.Worker.Branches.{handle_message_live}
use email_proxy.Worker.Writes.{
  broker-mark_processing, row_of-mark_processing, row_of-mark_sent, row_of-give_up,
  row_of-schedule_retry, cached_of-mark_sent, cached_of-give_up, cached_of-schedule_retry,
  waiting-give_up,
}
use email_proxy.Worker.Views.{row_of, cached_of, status_json}

module _ (e : Env) (r : IsReliable e.services) (started ended : Moment) (m : Mailer) (body : Text)
    (w : World e.services) (job : MailJob) (mail : Mail)
    (decoded : e.platform.unmarshal_job body ≡ ok job) (stored : row_of e job.mail_id w ≡ some mail)
    (live : is_cancelled e job.mail_id w ≡ false) where
  -- A mail that a service accepts: the message is acknowledged for good, the row says sent and
  -- when, and the cache says sent.
  pub handle_message_sent :
      attempt e m (mark_processing e started job w) job ≡ accepted
      → let h = handle_message e started ended m body w in
        (h.settlement ≡ ack)
        × (h.delayed ≡ none)
        × (row_of e job.mail_id h.world
            ≡ some (record mail { status = sent; sent_at = some ended.instant }))
        × (cached_of e job.mail_id h.world
            ≡ some (status_json e ended job.mail_id (text "sent") job.retry_count []))
  unfolding complete
  handle_message_sent done =
      rw (handle_message_live e started ended m body w job decoded live, complete, done)
        (
          refl,
          refl,
          simp (row_of-mark_sent e r, row_of-mark_processing e r, stored),
          cached_of-mark_sent e r ended job _,
        )

  -- A mail that is refused at its last attempt: the message is acknowledged, its job, with the new
  -- retry count, stands last in the failed queue, and the row and the cache say failed and why.
  pub handle_message_failed :
      (cause : Text)
      → attempt e m (mark_processing e started job w) job ≡ refused cause
      → e.config.max_retry_count ≤ job.retry_count + 1
      → let h = handle_message e started ended m body w in
        (h.settlement ≡ ack)
        × (h.delayed ≡ none)
        × (row_of e job.mail_id h.world
            ≡ some (record mail {
              status = failed;
              retry_count = job.retry_count + 1;
              error_message = cause;
            }))
        × (cached_of e job.mail_id h.world
            ≡ some (status_json e ended job.mail_id (text "failed") (job.retry_count + 1) cause))
        × (e.services.waiting e.config.failed_queue_name h.world.broker
            ≡ e.services.waiting e.config.failed_queue_name w.broker
              ++ e.platform.marshal_job (retried e job) ∷ [])
  unfolding complete handle_retry
  handle_message_failed cause bad last =
      let w' = mark_processing e started job w in
      let tired : leb e.config.max_retry_count (job.retry_count + 1) ≡ true = le→leb _ _ last in
      rw
        (
          handle_message_live e started ended m body w job decoded live,
          complete,
          bad,
          handle_retry,
          tired,
        )
        (
          refl,
          refl,
          row_of-give_up e r ended (retried e job) cause w'
              ∙ simp (row_of-mark_processing e r, stored),
          cached_of-give_up e r ended (retried e job) cause w',
          waiting-give_up e r ended (retried e job) cause w'
              ∙ ap
                  (λ b.
                    e.services.waiting e.config.failed_queue_name b
                    ++ e.platform.marshal_job (retried e job) ∷ [])
                  (broker-mark_processing e started job w),
        )

  -- A mail that is refused before its last attempt: the message is acknowledged, and the job with the
  -- new retry count is to be published to the mail queue after 2 ^ (retry count) seconds. The row
  -- says processing, with the new count, and the cache says queued.
  pub handle_message_rescheduled :
      (cause : Text)
      → attempt e m (mark_processing e started job w) job ≡ refused cause
      → job.retry_count + 1 < e.config.max_retry_count
      → let h = handle_message e started ended m body w in
        (h.settlement ≡ ack)
        × (h.delayed
            ≡ some (record {
              delay = backoff (job.retry_count + 1);
              message = retry_message e (retried e job);
            }))
        × (row_of e job.mail_id h.world
            ≡ some (record mail { status = processing; retry_count = job.retry_count + 1 }))
        × (cached_of e job.mail_id h.world
            ≡ some (status_json e ended job.mail_id (text "queued") (job.retry_count + 1) []))
  unfolding complete handle_retry
  handle_message_rescheduled cause bad more =
      let w' = mark_processing e started job w in
      let fresh : leb e.config.max_retry_count (job.retry_count + 1) ≡ false = lt→leb _ _ more in
      rw
        (
          handle_message_live e started ended m body w job decoded live,
          complete,
          bad,
          handle_retry,
          fresh,
        )
        (
          unfold schedule_retry in refl,
          unfold schedule_retry in refl,
          row_of-schedule_retry e r ended (retried e job) w'
              ∙ simp (row_of-mark_processing e r, stored),
          cached_of-schedule_retry e r ended (retried e job) w',
        )
