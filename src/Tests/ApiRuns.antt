-- ===== src/Tests/ApiRuns.antt =====
-- The handlers on concrete requests.
use email_proxy.Prelude.{◌≡◌, refl, [], ◌∷◌, none, some, arith}
use email_proxy.Prelude.Results.{ok}
use email_proxy.Text.{Text, text, text_eq, to_lower, has_suffix}
use email_proxy.Models.{MailJob, processing, sent, cancelled}
use email_proxy.Services.{World}
use email_proxy.Keydb.{new_status, get_status, set_status}
use email_proxy.Router.{accepted, refused, send_mail, route}
use email_proxy.Worker.{
  Mailer, ack, handle_message, is_cancelled, attempt, mark_processing, begin, complete,
  handle_retry, schedule_retry, note_status, update_row,
}
use email_proxy.Worker.Views.{row_of}
use email_proxy.Api.{mail_cancelled, failure}
use email_proxy.Api.Mails.States.{cancel, cancel_found}
use email_proxy.Api.Mails.Races.{cancel_overtaken}
use email_proxy.Api.Mails.Cancels.{cancel_is_final, cancel_refused_while_retrying}
use email_proxy.Tests.Fixture.{
  env, services, services_reliable, one_mail, sample_mail, blank_job, noon, later, mailer,
}

abbrev body : Text
body = 0 ∷ text "a1"

abbrev job : MailJob
job = record blank_job { mail_id = text "a1" }

abbrev cancelled_world : World services
cancelled_world = (cancel env (text "12:00") (text "client_1") (text "a1") one_mail).0

cancel_is_final_example :
    ((cancel env (text "12:00") (text "client_1") (text "a1") one_mail).1
      ≡ mail_cancelled (text "a1"))
    × (row_of env (text "a1") cancelled_world ≡ some (record sample_mail { status = cancelled }))
    × (handle_message env noon later (mailer accepted) body cancelled_world
        ≡ record { world = cancelled_world; settlement = ack; delayed = none })
unfolding text_eq
cancel_is_final_example =
    cancel_is_final env services_reliable (text "12:00") (text "client_1") (text "a1") one_mail
      sample_mail noon later (mailer accepted) body job refl refl refl refl

abbrev refusing : Mailer
refusing = mailer (refused (text "no"))

abbrev waiting : World services
waiting = (handle_message env noon later refusing body one_mail).world

found_waiting :
    env.services.first_mail_of (text "a1") (text "client_1") waiting.db
    ≡ ok (record sample_mail { status = processing; retry_count = 1 })
unfolding text_eq is_cancelled attempt send_mail route to_lower has_suffix handle_message begin
    complete handle_retry schedule_retry mark_processing note_status update_row set_status
found_waiting = refl

cancel_refused_while_retrying_example :
    (get_status env (text "a1") waiting
      ≡ ok (new_status (text "12:01") (text "a1") (text "queued") 1 []))
    × (cancel env (text "12:00") (text "client_1") (text "a1") waiting
        ≡ (waiting, failure 400 (text "cannot_cancel") (text "Only queued mails can be cancelled")))
unfolding text_eq is_cancelled attempt send_mail route to_lower has_suffix new_status
cancel_refused_while_retrying_example =
    cancel_refused_while_retrying env services_reliable noon later refusing body one_mail job
      sample_mail (record sample_mail { status = processing; retry_count = 1 }) (text "client_1")
      (text "12:00") (text "no") refl refl refl refl (omega arith) found_waiting refl refl

-- Cancel has read the mail, and a handler has marked it as processing.
abbrev begun : World services
begun = mark_processing env noon job one_mail

abbrev late : World services
late = (cancel_found env (text "12:00") (text "a1") sample_mail begun).0

cancel_overtaken_example :
    ((cancel_found env (text "12:00") (text "a1") sample_mail begun).1 ≡ mail_cancelled (text "a1"))
    × (row_of env (text "a1") late ≡ some (record sample_mail { status = cancelled }))
    × (row_of env (text "a1") (complete env later (mailer accepted) job late).world
        ≡ some (record sample_mail { status = sent; sent_at = some 721 }))
    × ((complete env later (mailer accepted) job late).settlement ≡ ack)
unfolding text_eq begin is_cancelled attempt send_mail route to_lower has_suffix
cancel_overtaken_example =
    cancel_overtaken env services_reliable noon later (mailer accepted) body (text "12:00")
      (text "client_1") one_mail begun job sample_mail refl refl refl refl refl
