-- ===== src/Worker/System/Totals.antt =====
-- A weight of jobs, summed over all the places where a job can wait, and how each step of the
-- worker changes the sum.
use email_proxy.Prelude.{
  ℕ, ◌+◌, ◌≤◌, ◌≡◌, refl, ap, [], ◌∷◌, false, arith, leb, if◌then◌else◌, sum_of, sum_of-append, inl,
  inr, if_same,
}
use email_proxy.Prelude.Results.{Result, ok, err, Result-cases}
use email_proxy.Text.{Text, text_eq}
use email_proxy.Models.{MailJob, MailUpdate}
use email_proxy.Services.{Env, World, Publishing}
use email_proxy.Keydb.{set_status}
use email_proxy.Queue.{publish}
use email_proxy.Router.{Outcome-cases}
use email_proxy.Worker.{
  Moment, Mailer, Delayed, update_row, note_status, mark_processing, attempt, mark_sent, give_up,
  schedule_retry, retried, handle_retry, complete,
}
use email_proxy.Worker.System.{System, pending, as_list}

-- What is relied on of the JSON encoding: a job that is read back is about the same mail and has
-- the same retry count. The queue of failed mails is not the mail queue.
pub record IsSound (e : Env) : Type 0 where
  pub decoded :
      (job job' : MailJob)
      → e.platform.unmarshal_job (e.platform.marshal_job job) ≡ ok job'
      → (job'.mail_id ≡ job.mail_id) × (job'.retry_count ≡ job.retry_count)
  pub apart : text_eq e.config.failed_queue_name e.config.mail_queue_name ≡ false

module _ (e : Env) (f : Text → ℕ → ℕ) where
  abbrev pub of_job : MailJob → ℕ
  of_job job = f job.mail_id job.retry_count

  abbrev of_result : Result MailJob → ℕ
  of_result (ok job) = of_job job
  of_result (err _) = 0

  -- The weight of a message; one that is no job weighs nothing.
  abbrev pub of_body : Text → ℕ
  of_body body = of_result (e.platform.unmarshal_job body)

  abbrev pub of_delayed : Delayed → ℕ
  of_delayed d = of_body d.message.body

  unfoldable pub of_pending : World e.services → ℕ
  of_pending w = sum_of of_body (pending e w)

  unfoldable pub total : System e → ℕ
  total s =
      of_pending s.world
      + sum_of of_body s.taken
      + sum_of of_job s.in_flight
      + sum_of of_delayed s.sleeping

  pub of_body-marshal :
      IsSound e → (job : MailJob) → of_body (e.platform.marshal_job job) ≤ of_job job
  of_body-marshal h job =
      elim (Result-cases (e.platform.unmarshal_job (e.platform.marshal_job job))) [
        | inl (job', read) ↦
            let (same_id, same_count) = h.decoded job job' read in
            rw (read, same_id, same_count) (omega arith)
        | inr (cause, bad) ↦ rw bad (omega arith)
      ]

  pub of_pending-publish :
      (p : Publishing) (w : World e.services)
      → of_pending (publish e p w).0 ≤ of_pending w + of_body p.body
  unfolding of_pending publish
  of_pending-publish p w =
      rw (e.services.waiting-publish p w.broker e.config.mail_queue_name)
        (ground (arith, sum_of-append of_body (pending e w) (p.body ∷ [])))

  of_pending-update_row :
      (id : Text) (c : MailUpdate) (w : World e.services)
      → of_pending (update_row e id c w) ≡ of_pending w
  unfolding of_pending update_row
  of_pending-update_row id c w = refl

  of_pending-note_status :
      (now : Moment) (id status : Text) (n : ℕ) (error : Text) (w : World e.services)
      → of_pending (note_status e now id status n error w) ≡ of_pending w
  unfolding of_pending note_status set_status
  of_pending-note_status now id status n error w = refl

  pub of_pending-mark_processing :
      (now : Moment) (job : MailJob) (w : World e.services)
      → of_pending (mark_processing e now job w) ≡ of_pending w
  unfolding mark_processing
  of_pending-mark_processing now job w = simp (of_pending-update_row, of_pending-note_status)

  of_pending-mark_sent :
      (now : Moment) (job : MailJob) (w : World e.services)
      → of_pending (mark_sent e now job w) ≡ of_pending w
  unfolding mark_sent
  of_pending-mark_sent now job w = simp (of_pending-update_row, of_pending-note_status)

  of_pending-schedule_retry :
      (now : Moment) (job : MailJob) (w : World e.services)
      → of_pending (schedule_retry e now job w).world ≡ of_pending w
  unfolding schedule_retry
  of_pending-schedule_retry now job w = simp (of_pending-update_row, of_pending-note_status)

  -- A message to another queue is not counted.
  of_pending-elsewhere :
      (p : Publishing) (w : World e.services)
      → text_eq p.routing_key e.config.mail_queue_name ≡ false
      → of_pending (publish e p w).0 ≡ of_pending w
  unfolding of_pending publish
  of_pending-elsewhere p w h =
      rw (e.services.waiting-publish p w.broker e.config.mail_queue_name, h)
        (ap (sum_of of_body) (if_same _ _))

  of_pending-give_up :
      IsSound e
      → (now : Moment) (job : MailJob) (cause : Text) (w : World e.services)
      → of_pending (give_up e now job cause w) ≡ of_pending w
  unfolding give_up
  of_pending-give_up h now job cause w =
      simp (of_pending-update_row, of_pending-note_status) (of_pending-elsewhere _ w h.apart)

  of_pending-handle_retry :
      IsSound e
      → (now : Moment) (job : MailJob) (cause : Text) (w : World e.services)
      → of_pending (handle_retry e now job cause w).world ≡ of_pending w
  unfolding handle_retry
  of_pending-handle_retry h now job cause w = ground (
    arith,
    of_pending-schedule_retry now (retried e job) w,
    of_pending-give_up h now (retried e job) cause w,
  )

  -- The end of a handler leaves the mail queue as it is.
  pub of_pending-complete :
      IsSound e
      → (now : Moment) (m : Mailer) (job : MailJob) (w : World e.services)
      → of_pending (complete e now m job w).world ≡ of_pending w
  unfolding complete
  of_pending-complete h now m job w = elim (Outcome-cases (attempt e m w job)) [
    | inl done ↦ rw (done, complete) (of_pending-mark_sent now job w)
    | inr (inl (cause, bad)) ↦ rw (bad, complete) (of_pending-handle_retry h now job cause w)
    | inr (inr broken) ↦ rw (broken, complete)
  ]

  -- The retry that an end of a handler leaves behind weighs no more than the job with its new
  -- count, and is left only if that count is below the limit and no service accepted the job.
  pub of_delayed-handle_retry :
      IsSound e
      → (now : Moment) (job : MailJob) (cause : Text) (w : World e.services)
      → sum_of of_delayed (as_list (handle_retry e now job cause w).delayed)
        ≤ (if leb e.config.max_retry_count (job.retry_count + 1) then 0 else of_job (retried e job))
  unfolding handle_retry schedule_retry
  of_delayed-handle_retry h now job cause w = ground (arith, of_body-marshal h (retried e job))
