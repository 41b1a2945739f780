-- ===== src/Worker/System/Moves.antt =====
-- How each step of the worker changes the sum of a weight over all jobs.
use email_proxy.Prelude.{
  ℕ, ◌+◌, ◌≤◌, ◌≡◌, refl, ap, List, ◌∷◌, ◌++◌, true, arith, sum_of, sum_of-append,
}
use email_proxy.Prelude.Results.{ok}
use email_proxy.Text.{Text}
use email_proxy.Models.{MailJob}
use email_proxy.Services.{Env, World}
use email_proxy.Queue.{publish_mail}
use email_proxy.Worker.{Moment, Mailer, proceed, Delayed, mark_processing, begin, complete}
use email_proxy.Worker.System.{
  System, pending, as_list, after_submit, after_take, after_begin, after_complete, after_wake,
}
use email_proxy.Worker.System.Totals.{
  IsSound, of_job, of_body, of_delayed, of_pending, total, of_body-marshal, of_pending-publish,
  of_pending-mark_processing, of_pending-complete,
}

pub begin-proceed :
    (e : Env) (now : Moment) (body : Text) (w w' : World e.services) (job : MailJob)
    → begin e now body w ≡ proceed job w'
    → (e.platform.unmarshal_job body ≡ ok job) × (w' ≡ mark_processing e now job w)
unfolding begin
begin-proceed e now body w w' job h = ground arith

module _ (e : Env) (f : Text → ℕ → ℕ) (s : System e) where
  pub of_taken :
      (before after : List Text) (body : Text)
      → s.taken ≡ before ++ body ∷ after
      → sum_of (of_body e f) s.taken ≡ of_body e f body + sum_of (of_body e f) (before ++ after)
  of_taken before after body h = omega (
    arith,
    ap (sum_of (of_body e f)) h,
    sum_of-append (of_body e f) before (body ∷ after),
    sum_of-append (of_body e f) before after,
  )

module _ (e : Env) (f : Text → ℕ → ℕ) (sound : IsSound e) (s : System e) where
  pub total-submit :
      (job : MailJob) → total e f (after_submit e s job) ≤ total e f s + of_job e f job
  unfolding total publish_mail
  total-submit job = omega (arith, of_pending-publish e f _ s.world, of_body-marshal e f sound job)

  pub total-take :
      (body : Text) (broker : e.services.Broker)
      → pending e s.world ≡ body ∷ e.services.waiting e.config.mail_queue_name broker
      → total e f (after_take e s body broker) ≡ total e f s
  unfolding total of_pending
  total-take body broker h = omega (arith, ap (sum_of (of_body e f)) h)

  pub total-receive :
      (now : Moment) (before after : List Text) (body : Text) (job : MailJob) (w : World e.services)
      → s.taken ≡ before ++ body ∷ after
      → begin e now body s.world ≡ proceed job w
      → total e f (after_begin e s (before ++ after) job w) ≡ total e f s
  unfolding total
  total-receive now before after body job w h b =
      let (read, moved) = begin-proceed e now body s.world w job b in
      let weight : of_body e f body ≡ of_job e f job = rw read in
      let kept : of_pending e f w ≡ of_pending e f s.world =
        rw moved (of_pending-mark_processing e f now job _) in
      omega (arith, of_taken e f s before after body h, weight, kept)

  pub total-discard :
      (before after : List Text) (body : Text)
      → s.taken ≡ before ++ body ∷ after
      → total e f (record s { taken = before ++ after }) + of_body e f body ≡ total e f s
  unfolding total
  total-discard before after body h = omega (arith, of_taken e f s before after body h)

  pub total-finish :
      (now : Moment) (m : Mailer) (before after : List MailJob) (job : MailJob)
      → s.in_flight ≡ before ++ job ∷ after
      → total e f (after_complete e s now m (before ++ after) job) + of_job e f job
        ≡ total e f s + sum_of (of_delayed e f) (as_list (complete e now m job s.world).delayed)
  unfolding total
  total-finish now m before after job h =
      let jobs = ap (sum_of (of_job e f)) h in
      omega (
        arith,
        jobs,
        sum_of-append (of_job e f) before (job ∷ after),
        sum_of-append (of_job e f) before after,
        of_pending-complete e f sound now m job s.world,
        sum_of-append (of_delayed e f) (as_list (complete e now m job s.world).delayed) s.sleeping,
      )

  pub total-wake :
      (before after : List Delayed) (d : Delayed)
      → s.sleeping ≡ before ++ d ∷ after
      → total e f (after_wake e s (before ++ after) d) ≤ total e f s
  unfolding total
  total-wake before after d h =
      let all = ap (sum_of (of_delayed e f)) h in
      omega (
        arith,
        all,
        sum_of-append (of_delayed e f) before (d ∷ after),
        sum_of-append (of_delayed e f) before after,
        of_pending-publish e f d.message s.world,
      )

  pub total-elsewhere :
      (db : e.services.Db) (cache : e.services.Cache)
      → total e f (record s { world = record s.world { db = db; cache = cache } }) ≡ total e f s
  unfolding total of_pending
  total-elsewhere db cache = refl

  pub total-shut_down : total e f (record s { is_shutdown = true }) ≡ total e f s
  unfolding total
  total-shut_down = refl
