-- ===== src/Worker/Delivery.antt =====
-- internal/worker/consumer.go: a mail from its first attempt to its last. The delayed message of a
-- refused attempt is published and handled again, until a handler leaves no delayed message.
pub mod Spec
pub mod Rounds
pub mod Refines
pub mod Settles
use email_proxy.Prelude.{◌≡◌, ◌⊎◌, ℕ, zero, suc, ◌+◌, Option, none, some}
use email_proxy.Text.{Text}
use email_proxy.Models.{Mail, sent, failed}
use email_proxy.Services.{Env, World}
use email_proxy.Queue.{publish}
use email_proxy.Worker.{Moment, Mailer, Delayed, handle_message}

-- What stands around one round: the times, what the consumer sends through, and what the other
-- parts of the program do to the world between the publication and the next handler.
pub record Round (e : Env) : Type 0 where
  pub started : Moment
  pub ended : Moment
  pub mailer : Mailer
  pub others : World e.services → World e.services

module _ (e : Env) where
  -- The goroutine of handleRetry after its sleep, up to the delivery of what it published.
  unfoldable pub republish : Round e → Delayed → World e.services → World e.services
  republish round d w = round.others (publish e d.message w).0

  -- The rounds from the `k`-th on, for a message with the given body.
  unfoldable pub rounds :
      (ℕ → Round e) → ℕ → ℕ → Text → World e.services → Option (World e.services)
  rounds round zero k body w = none
  rounds round (suc fuel) k body w =
      let h = handle_message e (round k).started (round k).ended (round k).mailer body w in
      elim h.delayed [
        | none ↦ some h.world
        | some d ↦ rounds round fuel (k + 1) d.message.body (republish (round k) d h.world)
      ]

  -- The row of a mail says that it was sent or has failed.
  unfoldable pub IsSettled : Text → World e.services → Type 0
  IsSettled id w =
      (mail : Mail) × ((e.services.row id w.db ≡ some mail)
        × ((mail.status ≡ sent) ⊎ (mail.status ≡ failed)))
