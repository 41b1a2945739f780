-- ===== src/Worker/System/Keeps.antt =====
-- What publishing, waking up and the end of a handler do to the weights in the two queues, if the
-- services do not fail.
use email_proxy.Prelude.{
  ℕ, ◌+◌, ◌≤◌, ◌≡◌, ◌≢◌, refl, ap, List, [], ◌∷◌, ◌++◌, false, arith, sum_of, sum_of-append, leb,
  inl, inr, Bool-cases, All,
}
use email_proxy.Prelude.Results.{ok}
use email_proxy.Text.{Text, text_eq}
use email_proxy.Text.Laws.{text_eq_iff, text_eq_refl}
use email_proxy.Models.{MailJob}
use email_proxy.Services.{Env, World, Publishing, IsReliable}
use email_proxy.Queue.{publish, publish_mail}
use email_proxy.Router.{panicked, Outcome-cases}
use email_proxy.Worker.Writes.{waiting-give_up}
use email_proxy.Keydb.{set_status}
use email_proxy.Worker.{
  Moment, Mailer, Delayed, mark_sent, update_row, note_status, attempt, retried, handle_retry,
  schedule_retry, complete,
}
use email_proxy.Worker.System.{System, pending, as_list, after_wake, note_delivery}
use email_proxy.Worker.System.Totals.{IsSound, of_job, of_body, of_delayed, of_pending, total}
use email_proxy.Worker.System.Limits.{count, deliveries_left}

-- The program reads every job that it has written.
abbrev pub IsReadable : Env → Type 0
IsReadable e =
    (job : MailJob)
    → (job' : MailJob) × (e.platform.unmarshal_job (e.platform.marshal_job job) ≡ ok job')

module _ (e : Env) where
  abbrev pub of_failed : (Text → ℕ → ℕ) → World e.services → ℕ
  of_failed f w = sum_of (of_body e f) (e.services.waiting e.config.failed_queue_name w.broker)

  -- How often the failed queue holds a job of a mail.
  abbrev pub failed_count : Text → World e.services → ℕ
  failed_count id w = of_failed (deliveries_left id) w

broker-mark_sent :
    (e : Env) (now : Moment) (job : MailJob) (w : World e.services)
    → (mark_sent e now job w).broker ≡ w.broker
unfolding mark_sent update_row note_status set_status
broker-mark_sent e now job w = refl

broker-schedule_retry :
    (e : Env) (now : Moment) (job : MailJob) (w : World e.services)
    → (schedule_retry e now job w).world.broker ≡ w.broker
unfolding schedule_retry update_row note_status set_status
broker-schedule_retry e now job w = refl

pub failed_is_other : (e : Env) → IsSound e → e.config.failed_queue_name ≢ e.config.mail_queue_name
failed_is_other e sound same =
    ground (arith, sound.apart, text_eq_iff e.config.failed_queue_name e.config.mail_queue_name)

module _ (e : Env) (sound : IsSound e) (reads : IsReadable e) (reliable : IsReliable e.services)
    (id : Text) where
  abbrev pub f : Text → ℕ → ℕ
  f = deliveries_left id

  of_body-marshal-eq : (job : MailJob) → of_body e f (e.platform.marshal_job job) ≡ of_job e f job
  of_body-marshal-eq job =
      let (job', read) = reads job in
      let (same_id, same_count) = sound.decoded job job' read in rw (read, same_id)

  apart_back : text_eq e.config.mail_queue_name e.config.failed_queue_name ≡ false
  apart_back = ground (
    arith,
    sound.apart,
    text_eq_iff e.config.mail_queue_name e.config.failed_queue_name,
    text_eq_iff e.config.failed_queue_name e.config.mail_queue_name,
  )

  of_pending-publish-eq :
      (p : Publishing) (w : World e.services)
      → p.routing_key ≡ e.config.mail_queue_name
      → (of_pending e f (publish e p w).0 ≡ of_pending e f w + of_body e f p.body)
        × (of_failed e f (publish e p w).0 ≡ of_failed e f w)
  unfolding of_pending publish
  of_pending-publish-eq p w to = (
    rw
        (
          e.services.waiting-publish p w.broker e.config.mail_queue_name,
          reliable.publishes p w.broker,
          to,
          text_eq_refl e.config.mail_queue_name,
        )
        (omega (arith, sum_of-append (of_body e f) (pending e w) (p.body ∷ []))),
    rw (
      e.services.waiting-publish p w.broker e.config.failed_queue_name,
      reliable.publishes p w.broker,
      to,
      apart_back,
    ),
  )

  handle_retry_owes :
      (now : Moment) (job : MailJob) (cause : Text) (w : World e.services)
      → of_job e f job + of_failed e f w
        ≤ sum_of (of_delayed e f) (as_list (handle_retry e now job cause w).delayed)
          + of_failed e f (handle_retry e now job cause w).world
  unfolding handle_retry
  handle_retry_owes now job cause w =
      elim (Bool-cases (leb e.config.max_retry_count (job.retry_count + 1))) [
        | inl last ↦
            rw (last, waiting-give_up e reliable now (retried e job) cause w)
              (omega (
                arith,
                sum_of-append (of_body e f) (e.services.waiting e.config.failed_queue_name w.broker)
                    (e.platform.marshal_job (retried e job) ∷ []),
                of_body-marshal-eq (retried e job),
              ))
        | inr again ↦
            rw (again, broker-schedule_retry e now (retried e job) w)
              (unfold schedule_retry in omega (arith, of_body-marshal-eq (retried e job)))
      ]

  -- What the end of a handler owes: the job is delivered, sleeps, or stands in the failed queue.
  pub complete_owes :
      (now : Moment) (m : Mailer) (job : MailJob) (w : World e.services) (delivered : List Text)
      → attempt e m w job ≢ panicked
      → of_job e f job + of_failed e f w + count id delivered
        ≤ sum_of (of_delayed e f) (as_list (complete e now m job w).delayed)
          + of_failed e f (complete e now m job w).world
          + count id (note_delivery (attempt e m w job) job.mail_id delivered)
  unfolding complete
  complete_owes now m job w delivered sane = elim (Outcome-cases (attempt e m w job)) [
    | inl done ↦ rw (done, complete, broker-mark_sent e now job w) (omega arith)
    | inr (inl (cause, bad)) ↦ rw (bad, complete) (omega (arith, handle_retry_owes now job cause w))
    | inr (inr broken) ↦ absurd (sane broken)
  ]

  abbrev pub IsRouted : Delayed → Type 0
  IsRouted d = d.message.routing_key ≡ e.config.mail_queue_name

  pub complete-IsRouted :
      (now : Moment) (m : Mailer) (job : MailJob) (w : World e.services)
      → All IsRouted (as_list (complete e now m job w).delayed)
  unfolding complete handle_retry schedule_retry
  complete-IsRouted now m job w = elim (Outcome-cases (attempt e m w job)) [
    | inl done ↦ rw (done, complete) tt
    | inr (inl (cause, bad)) ↦
        elim (Bool-cases (leb e.config.max_retry_count (job.retry_count + 1))) [
          | inl last ↦ rw (bad, complete, last) tt
          | inr again ↦ rw (bad, complete, again) (refl, tt)
        ]
    | inr (inr broken) ↦ rw (broken, complete) tt
  ]

  pub failed-submit :
      (job : MailJob) (w : World e.services)
      → (of_pending e f (publish_mail e job w).0 ≡ of_pending e f w + of_job e f job)
        × (of_failed e f (publish_mail e job w).0 ≡ of_failed e f w)
  unfolding publish_mail
  failed-submit job w =
      let (more, same) = of_pending-publish-eq _ w refl in
      (omega (arith, more, of_body-marshal-eq job), same)

  pub total-wake-eq :
      (s : System e) (before after : List Delayed) (d : Delayed)
      → s.sleeping ≡ before ++ d ∷ after
      → IsRouted d
      → (total e f (after_wake e s (before ++ after) d) ≡ total e f s)
        × (of_failed e f (after_wake e s (before ++ after) d).world ≡ of_failed e f s.world)
  unfolding total
  total-wake-eq s before after d held to =
      let (more, same) = of_pending-publish-eq d.message s.world to in
      (
        omega (
          arith,
          ap (sum_of (of_delayed e f)) held,
          sum_of-append (of_delayed e f) before (d ∷ after),
          sum_of-append (of_delayed e f) before after,
          more,
        ),
        same,
      )

  pub failed-take :
      (s : System e) (broker : e.services.Broker)
      → ((queue : Text)
          → queue ≢ e.config.mail_queue_name
          → e.services.waiting queue broker ≡ e.services.waiting queue s.world.broker)
      → of_failed e f (record s.world { broker = broker }) ≡ of_failed e f s.world
  failed-take s broker others =
      ap (sum_of (of_body e f)) (others e.config.failed_queue_name (failed_is_other e sound))
