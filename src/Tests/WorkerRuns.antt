-- ===== src/Tests/WorkerRuns.antt =====
-- The worker on concrete messages.
use email_proxy.Prelude.{ℕ, ◌≡◌, refl, [], ◌∷◌, false, none, some, arith, ◌≢◌}
use email_proxy.Text.{Text, text, text_eq, to_lower, has_suffix}
use email_proxy.Models.{processing, sent, failed, MailJob}
use email_proxy.Router.{Outcome, accepted, refused, send_mail, route}
use email_proxy.Worker.{
  ack, backoff, is_cancelled, mark_processing, attempt, retry_message, handle_message, begin,
  complete, handle_retry,
}
use mathlib.Core.Path.{sym, ap, ◌∙◌}
use email_proxy.Prelude.Results.{ok}
use email_proxy.Worker.Views.{SameFor, row_of, cached_of, status_json}
use email_proxy.Worker.Accounts.{IsAccountedFor, handle_message_accounted}
use email_proxy.Worker.Frame.{handle_message-SameFor}
use email_proxy.Worker.Outcomes.{
  handle_message_sent, handle_message_failed, handle_message_rescheduled,
}
use email_proxy.Tests.Fixture.{
  env, services_reliable, one_mail, sample_mail, blank_job, noon, later, mailer,
}

abbrev pub job_at : ℕ → MailJob
job_at n = record blank_job { mail_id = text "a1"; retry_count = n }

abbrev pub body_at : ℕ → Text
body_at n = n ∷ text "a1"

pub attempt_of :
    (outcome : Outcome) (n : ℕ)
    → attempt env (mailer outcome) (mark_processing env noon (job_at n) one_mail) (job_at n)
      ≡ outcome
unfolding attempt send_mail route to_lower has_suffix
attempt_of outcome n = refl

live : (n : ℕ) → is_cancelled env (text "a1") one_mail ≡ false
unfolding is_cancelled text_eq
live n = refl

stored : row_of env (text "a1") one_mail ≡ some sample_mail
unfolding text_eq
stored = refl

handle_message_sent_example :
    let h = handle_message env noon later (mailer accepted) (body_at 1) one_mail in
    (h.settlement ≡ ack)
    × (h.delayed ≡ none)
    × (row_of env (text "a1") h.world
        ≡ some (record sample_mail { status = sent; sent_at = some 721 }))
    × (cached_of env (text "a1") h.world
        ≡ some (status_json env later (text "a1") (text "sent") 1 []))
handle_message_sent_example =
    handle_message_sent env services_reliable noon later (mailer accepted) (body_at 1) one_mail
      (job_at 1) sample_mail refl stored (live 1) (attempt_of accepted 1)

handle_message_failed_example :
    let h = handle_message env noon later (mailer (refused (text "no"))) (body_at 4) one_mail in
    (h.settlement ≡ ack)
    × (h.delayed ≡ none)
    × (row_of env (text "a1") h.world
        ≡ some (record sample_mail { status = failed; retry_count = 5; error_message = text "no" }))
    × (cached_of env (text "a1") h.world
        ≡ some (status_json env later (text "a1") (text "failed") 5 (text "no")))
    × (h.world.broker (text "failed-mails") ≡ body_at 5 ∷ [])
handle_message_failed_example =
    handle_message_failed env services_reliable noon later (mailer (refused (text "no")))
      (body_at 4) one_mail (job_at 4) sample_mail refl stored (live 1) (text "no")
      (attempt_of (refused (text "no")) 4) (omega arith)

handle_message_rescheduled_example :
    let h = handle_message env noon later (mailer (refused (text "no"))) (body_at 1) one_mail in
    (h.settlement ≡ ack)
    × (h.delayed ≡ some (record { delay = backoff 2; message = retry_message env (job_at 2) }))
    × (row_of env (text "a1") h.world
        ≡ some (record sample_mail { status = processing; retry_count = 2 }))
    × (cached_of env (text "a1") h.world
        ≡ some (status_json env later (text "a1") (text "queued") 2 []))
handle_message_rescheduled_example =
    handle_message_rescheduled env services_reliable noon later (mailer (refused (text "no")))
      (body_at 1) one_mail (job_at 1) sample_mail refl stored (live 1) (text "no")
      (attempt_of (refused (text "no")) 1) (omega arith)

other_mail :
    (job : MailJob) → env.platform.unmarshal_job (body_at 1) ≡ ok job → text "a" ≢ job.mail_id
other_mail job h same =
    let is : job_at 1 ≡ job = ground arith in
    let clash : text "a" ≡ text "a1" = same ∙ sym (ap (λ j. j.mail_id) is) in cc

handle_message-SameFor_example :
    SameFor env
      (text "a")
      one_mail
      (handle_message env noon later (mailer (refused (text "no"))) (body_at 1) one_mail).world
handle_message-SameFor_example =
    handle_message-SameFor env (text "a") noon later (mailer (refused (text "no"))) (body_at 1)
      one_mail other_mail

settled :
    (handle_message env noon later (mailer (refused (text "no"))) (body_at 4) one_mail).settlement
    ≡ ack
unfolding is_cancelled text_eq handle_message begin complete attempt send_mail route to_lower
    has_suffix handle_retry
settled = refl

handle_message_accounted_example :
    IsAccountedFor env noon
      (mailer (refused (text "no")))
      (job_at 4)
      one_mail
      (handle_message env noon later (mailer (refused (text "no"))) (body_at 4) one_mail)
handle_message_accounted_example =
    handle_message_accounted env noon (mailer (refused (text "no"))) (job_at 4) one_mail later
      (body_at 4) services_reliable refl settled
