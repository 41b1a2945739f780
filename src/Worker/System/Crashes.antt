-- ===== src/Worker/System/Crashes.antt =====
-- A worker process that dies and is started again. RabbitMQ puts every message that was not
-- acknowledged back into the mail queue; the sleeping goroutines of handleRetry are gone, since
-- their messages were acknowledged.
use Prim.Native.Nat.{max}
use mathlib.Core.List.{Permᴰ}
use email_proxy.Prelude.{
  ℕ, ◌+◌, ◌*◌, ◌≤◌, ◌≡◌, ◌≢◌, refl, ap, ◌∙◌, false, List, [], ◌∷◌, ◌++◌, map, arith, sum_of,
  sum_of-append,
}
use email_proxy.Prelude.Results.{ok}
use email_proxy.Text.{Text}
use email_proxy.Models.{MailJob}
use email_proxy.Services.{Env, World}
use email_proxy.Router.{accepted, refused}
use email_proxy.Worker.{Mailer, attempt}
use email_proxy.Worker.System.{System, pending, Step}
use email_proxy.Worker.System.Totals.{IsSound, of_job, of_body, of_delayed, of_pending, total}
use email_proxy.Worker.System.Limits.{
  count, count-append, attempts_left, deliveries_left, limit, IsWithinAttempts, IsWithinDeliveries,
  Step-IsWithinAttempts, Step-IsWithinDeliveries, IsFresh, IsFresh-within,
}

abbrev mail_ids : List MailJob → List Text
mail_ids = map (λ (job : MailJob). job.mail_id)

module _ (e : Env) where
  -- How far the handlers of the jobs in flight had come: the ids of those that were attempted, and of
  -- those that a service had accepted.
  pub data Fate : List MailJob → List Text → List Text → Type 0 where
    nobody : Fate [] [] []
    unsent :
        {jobs : List MailJob} {a d : List Text} (job : MailJob)
        → Fate jobs a d
        → Fate (job ∷ jobs) a d
    unacknowledged :
        {jobs : List MailJob} {a d : List Text} (job : MailJob) (m : Mailer) (w : World e.services)
        → attempt e m w job ≡ accepted
        → Fate jobs a d
        → Fate (job ∷ jobs) (job.mail_id ∷ a) (job.mail_id ∷ d)
    turned_down :
        {jobs : List MailJob} {a d : List Text} (job : MailJob) (m : Mailer) (w : World e.services)
        (cause : Text)
        → attempt e m w job ≡ refused cause
        → Fate jobs a d
        → Fate (job ∷ jobs) (job.mail_id ∷ a) d

  -- The worker that is started after a crash.
  abbrev pub restarted : System e → e.services.Broker → List Text → List Text → System e
  restarted s broker attempted delivered = record s {
    world = record s.world { broker = broker };
    taken = [];
    in_flight = [];
    sleeping = [];
    active_jobs = 0;
    is_shutdown = false;
    attempted = attempted ++ s.attempted;
    delivered = delivered ++ s.delivered;
  }

  -- The queues after a crash: the mail queue holds what waited, the messages that were taken, and those of
  -- the jobs in flight, in any order; the others hold what they held and what a handler still published.
  pub record Redelivered (s : System e) (bodies : List Text) (broker : e.services.Broker)
      : Type 0 where
    pub read : map e.platform.unmarshal_job bodies ≡ map ok s.in_flight
    pub queued_again :
        Permᴰ
          (e.services.waiting e.config.mail_queue_name broker)
          (s.taken ++ bodies ++ pending e s.world)
    pub others :
        (queue : Text)
        → queue ≢ e.config.mail_queue_name
        → (published : List Text) × (e.services.waiting queue broker
            ≡ e.services.waiting queue s.world.broker ++ published)

  -- A life of the worker over crashes, with the ids of the mails whose handler a crash interrupted.
  pub data Life (s : System e) : System e → List Text → Type 0 where
    born : Life s s []
    lives : {t u : System e} {ids : List Text} → Life s t ids → Step e t u → Life s u ids
    crash :
        {t : System e} {ids : List Text} (bodies attempted delivered : List Text)
        (broker : e.services.Broker)
        → Life s t ids
        → Redelivered t bodies broker
        → Fate t.in_flight attempted delivered
        → Life s (restarted t broker attempted delivered) (mail_ids t.in_flight ++ ids)

  Fate-bounds :
      (id : Text) (jobs : List MailJob) (a d : List Text)
      → Fate jobs a d
      → (count id a ≤ count id (mail_ids jobs)) × (count id d ≤ count id (mail_ids jobs))
  Fate-bounds id _ _ _ nobody = (omega arith, omega arith)
  Fate-bounds id _ _ _ (unsent {jobs} {a} {d} job h) =
      let (p, q) = Fate-bounds id jobs a d h in (omega arith, omega arith)
  Fate-bounds id _ _ _ (unacknowledged {jobs} {a} {d} job m w sent h) =
      let (p, q) = Fate-bounds id jobs a d h in (omega arith, omega arith)
  Fate-bounds id _ _ _ (turned_down {jobs} {a} {d} job m w cause bad h) =
      let (p, q) = Fate-bounds id jobs a d h in (omega arith, omega arith)

sum_of-Permᴰ {ℓ} :
    {A : Type ℓ} (f : A → ℕ) (xs ys : List A) → Permᴰ xs ys → sum_of f xs ≡ sum_of f ys
sum_of-Permᴰ f _ _ Permᴰ.nil = refl
sum_of-Permᴰ f _ _ (Permᴰ.cons {l₁} {l₂} same h) = omega (arith, ap f same, sum_of-Permᴰ f l₁ l₂ h)
sum_of-Permᴰ f _ _ (Permᴰ.swap same other) = omega (arith, ap f same, ap f other)
sum_of-Permᴰ f _ _ (Permᴰ.trans {l₁} {l₂} {l₃} h k) =
    sum_of-Permᴰ f l₁ l₂ h ∙ sum_of-Permᴰ f l₂ l₃ k

module _ (e : Env) (f : Text → ℕ → ℕ) where
  of_bodies :
      (bodies : List Text) (jobs : List MailJob)
      → map e.platform.unmarshal_job bodies ≡ map ok jobs
      → sum_of (of_body e f) bodies ≡ sum_of (of_job e f) jobs
  of_bodies [] [] h = refl
  of_bodies [] (job ∷ jobs) h = cc
  of_bodies (body ∷ bodies) [] h = cc
  of_bodies (body ∷ bodies) (job ∷ jobs) h =
      let read : e.platform.unmarshal_job body ≡ ok job = cc in
      let others : map e.platform.unmarshal_job bodies ≡ map ok jobs = cc in
      let weight : of_body e f body ≡ of_job e f job = rw read in
      omega (arith, weight, of_bodies bodies jobs others)

  -- The weights survive a crash, but for those of the sleeping retries.
  pub total-restarted :
      (s : System e) (bodies a d : List Text) (broker : e.services.Broker)
      → Redelivered e s bodies broker
      → total e f (restarted e s broker a d) + sum_of (of_delayed e f) s.sleeping ≡ total e f s
  unfolding total of_pending
  total-restarted s bodies a d broker h = omega (
    arith,
    sum_of-Permᴰ (of_body e f) _ _ h.queued_again,
    sum_of-append (of_body e f) (s.taken ++ bodies) (pending e s.world),
    sum_of-append (of_body e f) s.taken bodies,
    of_bodies bodies s.in_flight h.read,
  )

module _ (e : Env) (sound : IsSound e) (id : Text) where
  Life-keeps :
      {s t : System e} {ids : List Text}
      → IsFresh e s
      → Life e s t ids
      → IsWithinAttempts e sound id (count id ids) t
        × IsWithinDeliveries e sound id (count id ids) t
  Life-keeps {s} fresh born = IsFresh-within e sound id s fresh
  Life-keeps fresh (lives {ids} life step) =
      let (attempts, deliveries) = Life-keeps fresh life in
      (
        Step-IsWithinAttempts e sound id (count id ids) step attempts,
        Step-IsWithinDeliveries e sound id (count id ids) step deliveries,
      )
  Life-keeps fresh (crash {t} {ids} bodies a d broker life again fate) =
      let (attempts, deliveries) = Life-keeps fresh life in
      let (few_attempts, few_deliveries) = Fate-bounds e id t.in_flight a d fate in
      let interrupted = count-append id (mail_ids t.in_flight) ids in
      (
        omega (
          arith,
          interrupted,
          count-append id a t.attempted,
          total-restarted e (attempts_left (limit e sound id) id) t bodies a d broker again,
        ),
        omega (
          arith,
          interrupted,
          count-append id d t.delivered,
          total-restarted e (deliveries_left id) t bodies a d broker again,
        ),
      )

-- However often the worker dies and is started again, a mail is attempted at most
-- max(1, MAX_RETRY_COUNT) times for each submission, and once more for each time that a crash
-- interrupted a handler of it. It is accepted at most once for each submission and once more for
-- each such interruption.
pub Life-limits :
    (e : Env) (s t : System e) (ids : List Text) (id : Text)
    → IsSound e
    → IsFresh e s
    → Life e s t ids
    → (count id t.attempted ≤ max 1 e.config.max_retry_count * count id t.submitted + count id ids)
      × (count id t.delivered ≤ count id t.submitted + count id ids)
Life-limits e s t ids id sound fresh life =
    let (attempts, deliveries) = Life-keeps e sound id fresh life in (omega arith, omega arith)
