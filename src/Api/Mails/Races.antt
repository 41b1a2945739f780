-- ===== src/Api/Mails/Races.antt =====
-- Cancel and the worker at the same mail: each reads the row and then writes it in a second
-- statement, so that the other may come between the two.
use email_proxy.Prelude.{◌≡◌, sym, ◌∙◌, ap, some}
use email_proxy.Prelude.Results.{ok}
use email_proxy.Text.{Text}
use email_proxy.Text.Laws.{text_eq_refl}
use email_proxy.Models.{
  Mail, MailJob, queued, processing, sent, cancelled, set_status_column, apply_update,
}
use email_proxy.Services.{Env, World, IsReliable}
use email_proxy.Keydb.{set_status}
use email_proxy.Router.{accepted}
use email_proxy.Api.{mail_cancelled}
use email_proxy.Api.Mails.States.{cancel_found}
use email_proxy.Worker.{Moment, Mailer, ack, attempt, proceed, begin, complete}
use email_proxy.Worker.Views.{row_of}
use email_proxy.Worker.Writes.{row_of-mark_processing, row_of-mark_sent}
use email_proxy.Worker.System.Moves.{begin-proceed}
use mathlib.Core.Option

-- Cancel has read a queued mail in the world `w`; a handler takes its message, finds that it is not
-- cancelled and marks it as processing; Cancel writes; a service accepts the mail.
module _ (e : Env) (r : IsReliable e.services) (started ended : Moment) (mailer : Mailer)
    (body stamp client_id : Text) (w w' : World e.services) (job : MailJob) (m : Mail) where
  abbrev cancelled_late : World e.services
  cancelled_late = (cancel_found e stamp job.mail_id m w').0

  row_held :
      e.services.first_mail_of job.mail_id client_id w.db ≡ ok m
      → m.id ≡ job.mail_id
      → begin e started body w ≡ proceed job w'
      → row_of e job.mail_id w' ≡ some (record m { status = processing })
  row_held found same begun =
      let (held, owner) = e.services.first_mail_of-row job.mail_id client_id w.db m found in
      let (read, marked) = begin-proceed e started body w w' job begun in
      let stored : row_of e job.mail_id w ≡ some m =
        ap (λ i. e.services.row i w.db) (sym same) ∙ held in
      ap (row_of e job.mail_id) marked
      ∙ row_of-mark_processing e r started job w
      ∙ ap (Option.map (apply_update (set_status_column processing))) stored

  row_cancelled :
      m.status ≡ queued
      → m.id ≡ job.mail_id
      → row_of e job.mail_id w' ≡ some (record m { status = processing })
      → row_of e job.mail_id cancelled_late ≡ some (record m { status = cancelled })
  unfolding cancel_found set_status
  row_cancelled waits same held =
      rw (waits, cancel_found)
        (rw
          (
            e.services.row-update,
            r.updates m.id (set_status_column cancelled) w'.db,
            same,
            text_eq_refl job.mail_id,
            held,
          )
          (ap (λ (i : Text). some (record m { id = i; status = cancelled })) same))

  -- Cancel answers that the mail is cancelled, and the handler ends with its row saying sent.
  pub cancel_overtaken :
      e.services.first_mail_of job.mail_id client_id w.db ≡ ok m
      → m.status ≡ queued
      → m.id ≡ job.mail_id
      → begin e started body w ≡ proceed job w'
      → attempt e mailer cancelled_late job ≡ accepted
      → ((cancel_found e stamp job.mail_id m w').1 ≡ mail_cancelled job.mail_id)
        × (row_of e job.mail_id cancelled_late ≡ some (record m { status = cancelled }))
        × (row_of e job.mail_id (complete e ended mailer job cancelled_late).world
            ≡ some (record m { status = sent; sent_at = some ended.instant }))
        × ((complete e ended mailer job cancelled_late).settlement ≡ ack)
  unfolding cancel_found complete
  cancel_overtaken found waits same begun done =
      let late = row_cancelled waits same (row_held found same begun) in
      (
        rw (waits, cancel_found),
        late,
        rw (done, complete) (row_of-mark_sent e r ended job _ ∙ rw late),
        rw (done, complete),
      )
