-- ===== src/Worker/Accounts.antt =====
-- Where a job is once its message has been acknowledged.
use email_proxy.Prelude.{
  ◌≡◌, refl, sym, ap, ◌∙◌, [], ◌∷◌, ◌++◌, inl, inr, true, some, arith, Bool-cases, leb,
}
use mathlib.Core.Path.{subst}
use email_proxy.Prelude.Results.{ok}
use email_proxy.Text.{Text}
use email_proxy.Models.{MailJob}
use email_proxy.Services.{Env, World, IsReliable}
use email_proxy.Router.{Outcome-cases, accepted}
use email_proxy.Worker.{
  Moment, Mailer, Handled, ack, backoff, is_cancelled, mark_processing, attempt, retry_message,
  give_up, schedule_retry, retried, handle_retry, complete, handle_message,
}
use email_proxy.Worker.Branches.{handle_message_live}
use email_proxy.Worker.Writes.{broker-mark_processing, waiting-give_up}

module _ (e : Env) (started : Moment) (m : Mailer) (job : MailJob) (w : World e.services) where
  -- The mail was cancelled, or a service accepted it, or its job with the next retry count waits for
  -- the backoff, or this job stands last in the queue of failed mails.
  pub data IsAccountedFor (h : Handled e) : Type 0 where
    was_cancelled : is_cancelled e job.mail_id w ≡ true → IsAccountedFor h
    was_accepted : attempt e m (mark_processing e started job w) job ≡ accepted → IsAccountedFor h
    waits :
        h.delayed
          ≡ some (record {
            delay = backoff (retried e job).retry_count;
            message = retry_message e (retried e job);
          })
        → IsAccountedFor h
    has_failed :
        e.services.waiting e.config.failed_queue_name h.world.broker
          ≡ e.services.waiting e.config.failed_queue_name w.broker
            ++ e.platform.marshal_job (retried e job) ∷ []
        → IsAccountedFor h

  after_refusal :
      IsReliable e.services
      → (ended : Moment) (cause : Text)
      → IsAccountedFor (handle_retry e ended job cause (mark_processing e started job w))
  unfolding handle_retry schedule_retry
  after_refusal r ended cause =
      let w_1 = mark_processing e started job w in
      elim (Bool-cases (leb e.config.max_retry_count (retried e job).retry_count)) [
        | inr more ↦ waits (ground arith)
        | inl last ↦
            let same : (handle_retry e ended job cause w_1).world
                ≡ give_up e ended (retried e job) cause w_1 =
              ground arith in
            has_failed (
              ap (λ v. e.services.waiting e.config.failed_queue_name v.broker) same
              ∙ waiting-give_up e r ended (retried e job) cause w_1
              ∙ ap
                  (λ b.
                    e.services.waiting e.config.failed_queue_name b
                    ++ e.platform.marshal_job (retried e job) ∷ [])
                  (broker-mark_processing e started job w))
      ]

  after_attempt :
      IsReliable e.services
      → (ended : Moment)
      → (complete e ended m job (mark_processing e started job w)).settlement ≡ ack
      → IsAccountedFor (complete e ended m job (mark_processing e started job w))
  unfolding complete
  after_attempt r ended h =
      elim (Outcome-cases (attempt e m (mark_processing e started job w) job)) [
        | inl good ↦ was_accepted good
        | inr (inl (cause, bad)) ↦
            let w_1 = mark_processing e started job w in
            let same : complete e ended m job w_1 ≡ handle_retry e ended job cause w_1 =
              rw (bad, complete) refl in
            subst IsAccountedFor (sym same) (after_refusal r ended cause)
        | inr (inr broken) ↦ absurd (ground arith)
      ]

  -- With services that do not fail, a job whose message the worker acknowledges is accounted for: no
  -- branch of the handler acknowledges a message and forgets its job.
  pub handle_message_accounted :
      (ended : Moment) (body : Text)
      → IsReliable e.services
      → e.platform.unmarshal_job body ≡ ok job
      → (handle_message e started ended m body w).settlement ≡ ack
      → IsAccountedFor (handle_message e started ended m body w)
  handle_message_accounted ended body r decoded h =
      elim (Bool-cases (is_cancelled e job.mail_id w)) [
        | inl gone ↦ was_cancelled gone
        | inr live ↦
            let same = handle_message_live e started ended m body w job decoded live in
            subst IsAccountedFor (sym same)
              (after_attempt r ended (sym (ap (λ x. x.settlement) same) ∙ h))
      ]
