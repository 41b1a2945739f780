-- ===== src/Worker/Branches.antt =====
-- The branches of the handler before an attempt.
use email_proxy.Prelude.{◌≡◌, true, false, none}
use email_proxy.Prelude.Results.{ok, err}
use email_proxy.Text.{Text}
use email_proxy.Models.{MailJob}
use email_proxy.Services.{Env, World}
use email_proxy.Worker.{
  Moment, Mailer, ack, drop, is_cancelled, mark_processing, complete, begin, handle_message,
}

module _ (e : Env) (started ended : Moment) (m : Mailer) (body : Text) (w : World e.services) where
  -- A message that is no job is refused without requeueing, and nothing else happens.
  pub handle_message_malformed :
      (cause : Text)
      → e.platform.unmarshal_job body ≡ err cause
      → handle_message e started ended m body w
        ≡ record { world = w; settlement = drop; delayed = none }
  unfolding handle_message begin
  handle_message_malformed cause h = rw (h, handle_message, begin)

  -- A cancelled mail is acknowledged, and nothing else happens, whatever the services would do.
  pub handle_message_cancelled :
      (job : MailJob)
      → e.platform.unmarshal_job body ≡ ok job
      → is_cancelled e job.mail_id w ≡ true
      → handle_message e started ended m body w
        ≡ record { world = w; settlement = ack; delayed = none }
  unfolding handle_message begin
  handle_message_cancelled job h c = rw (h, c, handle_message, begin)

  pub handle_message_live :
      (job : MailJob)
      → e.platform.unmarshal_job body ≡ ok job
      → is_cancelled e job.mail_id w ≡ false
      → handle_message e started ended m body w
        ≡ complete e ended m job (mark_processing e started job w)
  unfolding handle_message begin
  handle_message_live job h c = rw (h, c, handle_message, begin)
