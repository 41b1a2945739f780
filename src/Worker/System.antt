-- ===== src/Worker/System.antt =====
-- internal/worker/consumer.go with its goroutines: any number of handlers and of sleeping retries,
-- in every interleaving, while other parts of the program write to the database and the cache. The
-- handler is cut in two at the attempt to send, since anything may happen during the attempt.
-- RabbitMQ hands out a message once; Worker/System/Crashes has the workers that die.
pub mod Totals
pub mod Moves
pub mod Shutdown
pub mod Limits
pub mod Closing
pub mod Drains
pub mod Crashes
pub mod Keeps
pub mod Losses
use email_proxy.Prelude.{
  ℕ, ◌+◌, ◌-◌, ◌≡◌, ◌≢◌, Bool, true, false, List, [], ◌∷◌, ◌++◌, Option, none, some,
}
use email_proxy.Text.{Text}
use email_proxy.Models.{MailJob}
use email_proxy.Services.{Env, World}
use email_proxy.Queue.{publish_mail, publish}
use email_proxy.Router.{Outcome, accepted, refused, panicked}
use email_proxy.Worker.{
  Moment, Mailer, stop, proceed, Settlement, Delayed, attempt, begin, complete,
}

pub record System (e : Env) : Type 0 where
  pub world : World e.services
  -- messages that a goroutine has taken, past its test of the flag for the shutdown
  pub taken : List Text
  -- jobs that a goroutine attempts; active_jobs counts these, and leaves out the handlers that have
  -- not got to the attempt, which the code counts too, so that a wait for 0 ends here no later
  pub in_flight : List MailJob
  -- goroutines of handleRetry that sleep
  pub sleeping : List Delayed
  pub active_jobs : ℕ
  pub is_shutdown : Bool
  -- the history: ids of the mails that were submitted, attempted, and accepted by a service
  pub submitted : List Text
  pub attempted : List Text
  pub delivered : List Text

abbrev pub as_list {ℓ} : {A : Type ℓ} → Option A → List A
as_list none = []
as_list (some a) = a ∷ []

-- A job enters the history of deliveries if it was accepted.
abbrev pub note_delivery : Outcome → Text → List Text → List Text
note_delivery accepted id ids = id ∷ ids
note_delivery (refused _) id ids = ids
note_delivery panicked id ids = ids

module _ (e : Env) where
  -- The mail queue.
  abbrev pub pending : World e.services → List Text
  pending w = e.services.waiting e.config.mail_queue_name w.broker

  abbrev pub after_submit : System e → MailJob → System e
  after_submit s job = record s {
    world = (publish_mail e job s.world).0;
    submitted = job.mail_id ∷ s.submitted;
  }

  abbrev pub after_take : System e → Text → e.services.Broker → System e
  after_take s body broker = record s {
    world = record s.world { broker = broker };
    taken = body ∷ s.taken;
  }

  abbrev pub after_begin : System e → List Text → MailJob → World e.services → System e
  after_begin s others job w = record s {
    world = w;
    taken = others;
    in_flight = job ∷ s.in_flight;
    active_jobs = s.active_jobs + 1;
  }

  abbrev pub after_complete : System e → Moment → Mailer → List MailJob → MailJob → System e
  after_complete s now m others job =
      let h = complete e now m job s.world in
      record s {
        world = h.world;
        in_flight = others;
        sleeping = as_list h.delayed ++ s.sleeping;
        active_jobs = s.active_jobs - 1;
        attempted = job.mail_id ∷ s.attempted;
        delivered = note_delivery (attempt e m s.world job) job.mail_id s.delivered;
      }

  abbrev pub after_wake : System e → List Delayed → Delayed → System e
  after_wake s others d = record s { world = (publish e d.message s.world).0; sleeping = others }

  pub data Step (s : System e) : System e → Type 0 where
    -- the API or the SMTP receiver publishes a new job
    submit : (job : MailJob) → job.retry_count ≡ 0 → Step s (after_submit s job)
    -- a goroutine takes the first message and finds that no shutdown has begun; it would put the
    -- message back otherwise
    take :
        (body : Text) (broker : e.services.Broker)
        → s.is_shutdown ≡ false
        → pending s.world ≡ body ∷ e.services.waiting e.config.mail_queue_name broker
        → ((queue : Text)
            → queue ≢ e.config.mail_queue_name
            → e.services.waiting queue broker ≡ e.services.waiting queue s.world.broker)
        → Step s (after_take s body broker)
    -- its handler gets to the attempt
    receive :
        (now : Moment) (before after : List Text) (body : Text) (job : MailJob)
        (w : World e.services)
        → s.taken ≡ before ++ body ∷ after
        → begin e now body s.world ≡ proceed job w
        → Step s (after_begin s (before ++ after) job w)
    -- its handler settles the message before the attempt
    discard :
        (now : Moment) (before after : List Text) (body : Text) (settlement : Settlement)
        → s.taken ≡ before ++ body ∷ after
        → begin e now body s.world ≡ stop settlement
        → Step s (record s { taken = before ++ after })
    -- an attempt ends, and the rest of its handler runs
    finish :
        (now : Moment) (m : Mailer) (before after : List MailJob) (job : MailJob)
        → s.in_flight ≡ before ++ job ∷ after
        → attempt e m s.world job ≢ panicked
        → Step s (after_complete s now m (before ++ after) job)
    -- a goroutine wakes up and publishes its retry
    wake :
        (before after : List Delayed) (d : Delayed)
        → s.sleeping ≡ before ++ d ∷ after
        → Step s (after_wake s (before ++ after) d)
    -- something else writes to the database and the cache
    elsewhere :
        (db : e.services.Db) (cache : e.services.Cache)
        → Step s (record s { world = record s.world { db = db; cache = cache } })
    -- GracefulShutdown begins
    shut_down : Step s (record s { is_shutdown = true })

  pub data Reach (s : System e) : System e → Type 0 where
    here : Reach s s
    next : {t u : System e} → Reach s t → Step t u → Reach s u
