-- ===== src/EndToEnd.antt =====
-- From internal/api/handlers/mail_handler.go and internal/smtp/session.go to
-- internal/worker/consumer.go: what becomes of a mail that was taken.
use mathlib.Core.Path.{subst, sym, ap}
use email_proxy.Prelude.{
  length, ℕ, suc, ◌≡◌, refl, ◌∙◌, ◌≢◌, ◌≤◌, ◌++◌, [], ◌∷◌, Option, none, some, arith, inl, inr,
  Option-cases,
}
use email_proxy.Prelude.Results.{Result, ok, Result-cases}
use email_proxy.Text.{Text}
use email_proxy.Models.{Mail, queued, cancelled, MailJob}
use email_proxy.Services.{Env, World, IsReliable}
use email_proxy.Encryption.{EncryptionService}
use email_proxy.Router.{panicked}
use email_proxy.Worker.{attempt}
use email_proxy.Worker.Views.{row_of}
use email_proxy.Worker.Delivery.Rounds.{counted}
use email_proxy.Worker.Delivery.{Round, rounds, IsSettled}
use email_proxy.Worker.Delivery.Settles.{rounds_settle}
use email_proxy.Api.{Context, mail_queued}
use email_proxy.Api.Mails.{SendRequest, new_mail, new_job, send}
use email_proxy.Api.Mails
use email_proxy.Api.Mails.Sends.{send_sound}
use email_proxy.Smtp.{Session}
use email_proxy.Smtp.Mime.{MimeReader, read_parts}
use email_proxy.Smtp.Save.{save_all}
use email_proxy.Smtp.Receive
use email_proxy.Smtp.Receive.{simple_mail, mime_mail, job_of, parse_mail_data, data_command}
use email_proxy.Smtp.Intake.{Ends, data_command_lem}

queued-ne-cancelled : queued ≢ cancelled
queued-ne-cancelled h = cc

some_pair {ℓ κ} :
    {A : Type ℓ} {B : Type κ} (x y : A × B) → some x ≡ some y → (x.0 ≡ y.0) × (x.1 ≡ y.1)
some_pair x y h = ground arith

-- The rounds of the worker: no attempt panics, and no other part writes the row of mail `id`.
pub record IsUndisturbed (e : Env) (round : ℕ → Round e) (id : Text) : Type 0 where
  pub calm :
      (k : ℕ) (v : World e.services) (j : MailJob) → attempt e (round k).mailer v j ≢ panicked
  pub kept : (k : ℕ) (v : World e.services) → row_of e id ((round k).others v) ≡ row_of e id v

-- What encoding/json makes of a job `j` that is written and read back: it is `j'`, which differs from
-- `j` at most in its texts, where bytes that are no UTF-8 are replaced. The job `j'` holds no such bytes,
-- so it is read back as it is, with any retry count. A UUID and a count never change.
pub record IsReadAs (e : Env) (j j' : MailJob) : Type 0 where
  pub reads : e.platform.unmarshal_job (e.platform.marshal_job j) ≡ ok j'
  pub same_id : j'.mail_id ≡ j.mail_id
  pub same_count : j'.retry_count ≡ j.retry_count
  pub steady :
      (n : ℕ) → e.platform.unmarshal_job (e.platform.marshal_job (counted j' n)) ≡ ok (counted j' n)

module _ (e : Env) (round : ℕ → Round e) (rest : ℕ) where
  -- Between `w` and `w'` a job of mail `id` was put at the end of the mail queue, and the rounds that
  -- begin with its message settle the mail.
  pub record IsDelivered (id : Text) (w w' : World e.services) : Type 0 where
    pub job : MailJob
    pub final : World e.services
    pub job_is : job.mail_id ≡ id
    pub message_is :
        e.services.waiting e.config.mail_queue_name w'.broker
        ≡ e.services.waiting e.config.mail_queue_name w.broker ++ e.platform.marshal_job job ∷ []
    pub ends : rounds e round (suc rest) 0 (e.platform.marshal_job job) w' ≡ some final
    pub settled : IsSettled e id final

  -- A job that has not been tried, in the queue, with its row queued.
  fresh_settles :
      (r : IsReliable e.services) (enough : e.config.max_retry_count ≤ suc rest)
      (job job' : MailJob) (mail : Mail) (w w' : World e.services)
      → IsReadAs e job job'
      → job.retry_count ≡ 0
      → IsUndisturbed e round job.mail_id
      → row_of e job.mail_id w' ≡ some mail
      → mail.status ≡ queued
      → e.services.waiting e.config.mail_queue_name w'.broker
        ≡ e.services.waiting e.config.mail_queue_name w.broker ++ e.platform.marshal_job job ∷ []
      → IsDelivered job.mail_id w w'
  fresh_settles r enough job job' mail w w' read none_yet calm stored is_queued waits =
      let calm' = subst (IsUndisturbed e round) (sym read.same_id) calm in
      let (final, (ran, settled)) =
        rounds_settle e r job' round calm'.kept read.steady
          (λ k n v. calm'.calm k v (counted job' n)) rest 0 0 (e.platform.marshal_job job) w' mail
          (omega (arith, enough))
          (read.reads ∙ ap (λ n. ok (counted job' n)) (read.same_count ∙ none_yet))
          (ap (λ i. row_of e i w') read.same_id ∙ stored)
          (λ gone. queued-ne-cancelled (sym is_queued ∙ gone)) in
      record {
        job = job;
        final = final;
        job_is = refl;
        message_is = waits;
        ends = ran;
        settled = subst (λ i. IsSettled e i final) read.same_id settled;
      }

  module _ (r : IsReliable e.services)
      (round_trip : (j : MailJob) → e.platform.unmarshal_job (e.platform.marshal_job j) ≡ ok j)
      (enough : e.config.max_retry_count ≤ suc rest) where
    exactly : (j : MailJob) → IsReadAs e j j
    exactly j = record {
      reads = round_trip j;
      same_id = refl;
      same_count = refl;
      steady = λ n. round_trip (counted j n);
    }

    -- With services that do not fail and a JSON encoding of jobs that is read back, a mail that Send
    -- answered as queued is delivered: its message stands in the mail queue, and if no attempt panics
    -- and no other part writes its row, the handlers that begin with the message end after at most
    -- MAX_RETRY_COUNT rounds, or one if that is 0, and the row then says sent or failed.
    pub send-IsDelivered :
        (service : Option EncryptionService) (c : Context) (now : Mails.Now) (req : SendRequest)
        (w w' : World e.services) (id : Text)
        → send e service c now (ok req) w ≡ (w', mail_queued id)
        → IsUndisturbed e round now.mail_id
        → IsDelivered now.mail_id w w'
    unfolding new_mail new_job
    send-IsDelivered service c now req w w' id h calm =
        let q = send_sound e service c now req w w' id h in
        let m = new_mail now req q.client_id q.client_name q.config in
        let job = new_job m q.gathered in
        fresh_settles r enough job job (record m { attachments = q.gathered.rows }) w w'
          (exactly job) refl calm (ap (λ i. e.services.row i w'.db) (sym q.id_is) ∙ q.row_is) refl
          q.message_is

  -- The mail that was read from a message has status queued, and one of the UUIDs of the call.
  parsed_mail :
      (now : Receive.Now) (fuel : ℕ) (create_reader : Text → Result MimeReader) (s : Session)
      (raw : Text) (w w' : World e.services) (m : Mail)
      → parse_mail_data e now fuel create_reader s raw w ≡ some (w', m)
      → (m.status ≡ queued) × ((i : ℕ) × (m.id ≡ now.fresh i))
  unfolding parse_mail_data simple_mail mime_mail
  parsed_mail now fuel create_reader s raw w w' m h = elim (Result-cases (create_reader raw)) [
    | inr (cause, bad) ↦
        let same : simple_mail now s raw ≡ m = ground arith in
        (ap (λ x. x.status) (sym same), (0, ap (λ x. x.id) (sym same)))
    | inl (reader, is) ↦
        elim (Option-cases (
          read_parts now.unix now.fresh reader.next_part fuel 0
            (record { body_text = []; body_html = []; attachments = [] }))) [
              | inl hangs ↦ absurd (ground arith)
              | inr (c, read) ↦
                  let base = mime_mail now s reader c raw in
                  let saved = save_all e now.today base.id c.attachments w in
                  let same : record base { attachments = saved.1 } ≡ m = ground arith in
                  (ap (λ x. x.status) (sym same), (length c.attachments, ap (λ x. x.id) (sym same)))
            ]
  ]

  -- With services that do not fail, if the jobs about the UUIDs of the call are read back from their
  -- JSON, perhaps with bytes that are no UTF-8 replaced, a message that Data answered without an
  -- error, from a reader that ends within the fuel, is delivered: its job stands in the mail queue,
  -- and if no attempt panics and no other part writes the row of its mail, the handlers that begin
  -- with the job end after at most MAX_RETRY_COUNT rounds, or one if that is 0, and the row then says
  -- sent or failed.
  pub data_command-IsDelivered :
      (now : Receive.Now) (fuel : ℕ) (create_reader : Text → Result MimeReader) (s : Session)
      (raw : Text) (w w' : World e.services)
      → ((reader : MimeReader) → create_reader raw ≡ ok reader → Ends fuel reader)
      → IsReliable e.services
      → e.config.max_retry_count ≤ suc rest
      → ((j : MailJob) (i : ℕ) → j.mail_id ≡ now.fresh i → (j' : MailJob) × IsReadAs e j j')
      → data_command e now fuel create_reader s (ok raw) w ≡ some (w', none)
      → ((i : ℕ) → IsUndisturbed e round (now.fresh i))
      → (i : ℕ) × IsDelivered (now.fresh i) w w'
  unfolding job_of
  data_command-IsDelivered now fuel create_reader s raw w w' ends r enough read_as h calm =
      let (v, error, ran, received) = data_command_lem e now fuel create_reader s raw w ends in
      let same : (v ≡ w') × (error ≡ none) = some_pair (v, error) (w', none) (sym ran ∙ h) in
      let x = received same.1 in
      let (is_queued, (i, id_is)) =
        parsed_mail now fuel create_reader s raw w x.parsed_world x.received x.parsed_is in
      let read = read_as (job_of x.received) i id_is in
      (
        i,
        subst (λ j. IsDelivered j w w') id_is
            (fresh_settles r enough (job_of x.received) read.0 x.received w w' read.1 refl
              (subst (IsUndisturbed e round) (sym id_is) (calm i))
              (ap (λ u. e.services.row x.received.id u.db) (sym same.0) ∙ x.row_is) is_queued
              (ap (λ u. e.services.waiting e.config.mail_queue_name u.broker) (sym same.0)
                ∙ x.message_is)),
      )
