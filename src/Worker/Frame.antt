-- ===== src/Worker/Frame.antt =====
-- What a handler leaves alone: everything that is stored about other mails.
use email_proxy.Prelude.{◌≡◌, ◌≢◌, refl, inl, inr, arith, Bool-cases, leb}
use mathlib.Core.Path.{subst, sym}
use email_proxy.Prelude.Results.{ok, Result-cases}
use email_proxy.Text.{Text}
use email_proxy.Models.{MailJob}
use email_proxy.Services.{Env, World, Publishing}
use email_proxy.Queue.{publish}
use email_proxy.Router.{Outcome-cases}
use email_proxy.Worker.{
  Moment, Mailer, attempt, is_cancelled, mark_processing, mark_sent, give_up, schedule_retry,
  retried, handle_retry, complete, begin, handle_message,
}
use email_proxy.Worker.Views.{SameFor, SameFor-trans, update_row-SameFor, note_status-SameFor}

module _ (e : Env) (i : Text) where
  SameFor-refl : (w : World e.services) → SameFor e i w w
  SameFor-refl w = record { same_row = refl; same_cached = refl }

  moved : (v v' w : World e.services) → v' ≡ v → SameFor e i w v → SameFor e i w v'
  moved v v' w h k = subst (SameFor e i w) (sym h) k

  publish-SameFor : (p : Publishing) (w : World e.services) → SameFor e i w (publish e p w).0
  unfolding publish
  publish-SameFor p w = record { same_row = refl; same_cached = refl }

  module _ (job : MailJob) (other : i ≢ job.mail_id) where
    mark_processing-SameFor :
        (now : Moment) (w : World e.services) → SameFor e i w (mark_processing e now job w)
    unfolding mark_processing
    mark_processing-SameFor now w =
        SameFor-trans e (note_status-SameFor e now job.mail_id _ _ _ w i other)
          (update_row-SameFor e job.mail_id _ _ i other)

    mark_sent-SameFor :
        (now : Moment) (w : World e.services) → SameFor e i w (mark_sent e now job w)
    unfolding mark_sent
    mark_sent-SameFor now w =
        SameFor-trans e (update_row-SameFor e job.mail_id _ w i other)
          (note_status-SameFor e now job.mail_id _ _ _ _ i other)

    give_up-SameFor :
        (now : Moment) (cause : Text) (w : World e.services)
        → SameFor e i w (give_up e now (retried e job) cause w)
    unfolding give_up
    give_up-SameFor now cause w = SameFor-trans e (publish-SameFor _ w) (
        SameFor-trans e (update_row-SameFor e job.mail_id _ _ i other)
          (note_status-SameFor e now job.mail_id _ _ _ _ i other))

    schedule_retry-SameFor :
        (now : Moment) (w : World e.services)
        → SameFor e i w (schedule_retry e now (retried e job) w).world
    unfolding schedule_retry
    schedule_retry-SameFor now w =
        SameFor-trans e (update_row-SameFor e job.mail_id _ w i other)
          (note_status-SameFor e now job.mail_id _ _ _ _ i other)

    handle_retry-SameFor :
        (now : Moment) (cause : Text) (w : World e.services)
        → SameFor e i w (handle_retry e now job cause w).world
    unfolding handle_retry
    handle_retry-SameFor now cause w =
        elim (Bool-cases (leb e.config.max_retry_count (retried e job).retry_count)) [
          | inl tired ↦ moved _ _ w (ground arith) (give_up-SameFor now cause w)
          | inr fresh ↦ moved _ _ w (ground arith) (schedule_retry-SameFor now w)
        ]

    complete-SameFor :
        (now : Moment) (m : Mailer) (w : World e.services)
        → SameFor e i w (complete e now m job w).world
    unfolding complete
    complete-SameFor now m w = elim (Outcome-cases (attempt e m w job)) [
      | inl good ↦ moved _ _ w (ground arith) (mark_sent-SameFor now w)
      | inr (inl (cause, bad)) ↦ moved _ _ w (ground arith) (handle_retry-SameFor now cause w)
      | inr (inr broken) ↦ moved _ _ w (ground arith) (SameFor-refl w)
    ]

  -- Whatever becomes of a message, on every branch of its handler and whether the services fail or
  -- not, the row and the cached status of every other mail stay as they are.
  pub handle_message-SameFor :
      (started ended : Moment) (m : Mailer) (body : Text) (w : World e.services)
      → ((job : MailJob) → e.platform.unmarshal_job body ≡ ok job → i ≢ job.mail_id)
      → SameFor e i w (handle_message e started ended m body w).world
  unfolding handle_message begin
  handle_message-SameFor started ended m body w other =
      elim (Result-cases (e.platform.unmarshal_job body)) [
        | inr (cause, bad) ↦ moved _ _ w (ground arith) (SameFor-refl w)
        | inl (job, decoded) ↦ elim (Bool-cases (is_cancelled e job.mail_id w)) [
          | inl gone ↦ moved _ _ w (ground arith) (SameFor-refl w)
          | inr live ↦
              moved (complete e ended m job (mark_processing e started job w)).world _ w
                (ground arith)
                (SameFor-trans e (mark_processing-SameFor job (other job decoded) started w) (
                  complete-SameFor job (other job decoded) ended m
                    (mark_processing e started job w)))
        ]
      ]
