-- ===== src/Worker/Delivery/Rounds.antt =====
-- One round: when it is the last, and what the next one finds.
use email_proxy.Prelude.{ℕ, suc, ◌+◌, ◌≡◌, ◌≢◌, refl, false, none, some, arith}
use email_proxy.Prelude.Results.{ok}
use email_proxy.Text.{Text}
use email_proxy.Models.{Mail, processing, cancelled, MailJob}
use email_proxy.Services.{Env, World, IsReliable}
use email_proxy.Queue.{publish}
use email_proxy.Router.{panicked}
use email_proxy.Worker.{
  Moment, Mailer, Handled, Delayed, is_cancelled, mark_processing, attempt, complete,
  handle_message,
}
use email_proxy.Worker.Branches.{handle_message_live}
use email_proxy.Worker.Views.{row_of}
use email_proxy.Worker.Writes.{row_of-mark_processing}
use email_proxy.Worker.Delivery.{Round, republish, rounds}

pub row_is_live :
    (e : Env) (r : IsReliable e.services) (id : Text) (w : World e.services) (mail : Mail)
    → row_of e id w ≡ some mail
    → mail.status ≢ cancelled
    → is_cancelled e id w ≡ false
unfolding is_cancelled
row_is_live e r id w mail stored live = ground (arith, r.reads id w.db mail stored)

pub handle_message_panicked :
    (e : Env) (r : IsReliable e.services) (started ended : Moment) (m : Mailer) (body : Text)
    (w : World e.services) (job : MailJob) (mail : Mail)
    → e.platform.unmarshal_job body ≡ ok job
    → row_of e job.mail_id w ≡ some mail
    → is_cancelled e job.mail_id w ≡ false
    → attempt e m (mark_processing e started job w) job ≡ panicked
    → let h = handle_message e started ended m body w in
      (h.delayed ≡ none)
      × (row_of e job.mail_id h.world ≡ some (record mail { status = processing }))
unfolding complete
handle_message_panicked e r started ended m body w job mail decoded stored live broken =
    rw (handle_message_live e started ended m body w job decoded live, complete, broken)
      (refl, simp (row_of-mark_processing e r, stored))

-- The job with its count.
abbrev pub counted : MailJob → ℕ → MailJob
counted job n = record job { retry_count = n }

module _ (e : Env) (round : ℕ → Round e) where
  abbrev handled : ℕ → Text → World e.services → Handled e
  handled k body w = handle_message e (round k).started (round k).ended (round k).mailer body w

  pub row_of-republish :
      (id : Text)
      → ((k : ℕ) (w : World e.services) → row_of e id ((round k).others w) ≡ row_of e id w)
      → (k : ℕ) (d : Delayed) (w : World e.services)
      → row_of e id (republish e (round k) d w) ≡ row_of e id w
  unfolding republish publish
  row_of-republish id kept k d w = kept k (publish e d.message w).0

  pub rounds_end :
      (fuel k : ℕ) (body : Text) (w : World e.services)
      → (handled k body w).delayed ≡ none
      → rounds e round (suc fuel) k body w ≡ some (handled k body w).world
  unfolding rounds
  rounds_end fuel k body w h = rw (rounds, h) refl

  pub rounds_go_on :
      (fuel k : ℕ) (body : Text) (w : World e.services) (d : Delayed)
      → (handled k body w).delayed ≡ some d
      → rounds e round (suc fuel) k body w
        ≡ rounds e round fuel
            (k + 1)
            d.message.body
            (republish e (round k) d (handled k body w).world)
  unfolding rounds
  rounds_go_on fuel k body w d h = rw (rounds, h) refl
