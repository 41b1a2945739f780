-- ===== src/Api/Mails/Cancels.antt =====
-- Cancelling a mail, and what the worker makes of its message then.
use email_proxy.Prelude.{◌+◌, ◌<◌, ◌≡◌, sym, ◌∙◌, ap, [], true, false, Option, none, some, arith}
use email_proxy.Prelude.Results.{ok}
use email_proxy.Text.{Text, text}
use email_proxy.Text.Laws.{text_eq_refl}
use email_proxy.Models.{Mail, MailJob, queued, processing, cancelled, set_status_column}
use email_proxy.Services.{Env, World, IsReliable}
use email_proxy.Keydb.{status_key, new_status, read_status, set_status, get_status}
use email_proxy.Router.{refused}
use email_proxy.Api.{failure, mail_cancelled}
use email_proxy.Api.Mails.States.{cancel_found, cancel}
use email_proxy.Worker.{Moment, Mailer, ack, attempt, is_cancelled, mark_processing, handle_message}
use email_proxy.Worker.Views.{row_of, status_json}
use email_proxy.Worker.Branches.{handle_message_cancelled}
use email_proxy.Worker.Outcomes.{handle_message_rescheduled}

module _ (e : Env) (r : IsReliable e.services) (stamp client_id mail_id : Text)
    (w : World e.services) where
  -- A mail that Cancel answers as cancelled.
  cancel_row :
      (m : Mail)
      → e.services.first_mail_of mail_id client_id w.db ≡ ok m
      → m.status ≡ queued
      → row_of e m.id (cancel e stamp client_id mail_id w).0
        ≡ some (record m { status = cancelled })
  unfolding cancel cancel_found set_status
  cancel_row m h q =
      rw (h, cancel, q, cancel_found)
        (rw (
          e.services.row-update,
          r.updates m.id (set_status_column cancelled) w.db,
          text_eq_refl m.id,
          (e.services.first_mail_of-row mail_id client_id w.db m h).0,
        ))

  -- A mail of the client that is queued and is cancelled is never sent by a message that a worker takes
  -- afterwards: the message is acknowledged, and no service is called and nothing is stored.
  pub cancel_is_final :
      (m : Mail) (started ended : Moment) (mailer : Mailer) (body : Text) (job : MailJob)
      → e.services.first_mail_of mail_id client_id w.db ≡ ok m
      → m.status ≡ queued
      → e.platform.unmarshal_job body ≡ ok job
      → job.mail_id ≡ m.id
      → let after = (cancel e stamp client_id mail_id w).0 in
        ((cancel e stamp client_id mail_id w).1 ≡ mail_cancelled mail_id)
        × (row_of e m.id after ≡ some (record m { status = cancelled }))
        × (handle_message e started ended mailer body after
            ≡ record { world = after; settlement = ack; delayed = none })
  unfolding cancel cancel_found is_cancelled
  cancel_is_final m started ended mailer body job h q b same =
      let row = cancel_row m h q in
      let seen : is_cancelled e job.mail_id (cancel e stamp client_id mail_id w).0 ≡ true =
        rw (same, is_cancelled, r.reads m.id _ _ row) in
      (
        rw (h, cancel, q, cancel_found),
        row,
        handle_message_cancelled e started ended mailer body _ job b seen,
      )

status_of_row : (o : Option Mail) (a b : Mail) → o ≡ some a → o ≡ some b → a.status ≡ b.status
status_of_row o a b h k = ground arith

module _ (e : Env) (r : IsReliable e.services) (started ended : Moment) (m : Mailer) (body : Text)
    (w : World e.services) (job : MailJob) (mail found_mail : Mail)
    (client_id stamp cause : Text) where
  abbrev waiting_world : World e.services
  waiting_world = (handle_message e started ended m body w).world

  -- While a mail waits for its retry, its status is reported as queued, and Cancel refuses it since
  -- its row says processing: the handler that was refused by the service sets the cached status
  -- back, and not the row.
  pub cancel_refused_while_retrying :
      e.platform.unmarshal_job body ≡ ok job
      → row_of e job.mail_id w ≡ some mail
      → is_cancelled e job.mail_id w ≡ false
      → attempt e m (mark_processing e started job w) job ≡ refused cause
      → job.retry_count + 1 < e.config.max_retry_count
      → e.services.first_mail_of job.mail_id client_id waiting_world.db ≡ ok found_mail
      → found_mail.id ≡ job.mail_id
      → e.platform.unmarshal_status
          (status_json e ended job.mail_id (text "queued") (job.retry_count + 1) [])
        ≡ ok (new_status ended.formatted job.mail_id (text "queued") (job.retry_count + 1) [])
      → (get_status e job.mail_id waiting_world
          ≡ ok (new_status ended.formatted job.mail_id (text "queued") (job.retry_count + 1) []))
        × (cancel e stamp client_id job.mail_id waiting_world ≡ (
          waiting_world,
          failure 400 (text "cannot_cancel") (text "Only queued mails can be cancelled"),
        ))
  unfolding get_status read_status cancel cancel_found
  cancel_refused_while_retrying decoded stored live bad more found_it same json =
      let (_, _, row, cached) =
        handle_message_rescheduled e r started ended m body w job mail decoded stored live cause bad
          more in
      let (held, _) =
        e.services.first_mail_of-row job.mail_id client_id waiting_world.db found_mail found_it in
      let status : found_mail.status ≡ processing =
        status_of_row _ found_mail _ (ap (λ i. e.services.row i waiting_world.db) (sym same) ∙ held)
          row in
      (
        rw (r.gets (status_key job.mail_id) waiting_world.cache _ cached, get_status)
            (rw (json, read_status)),
        rw (found_it, cancel, status, cancel_found),
      )
