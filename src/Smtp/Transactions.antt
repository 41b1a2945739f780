-- ===== src/Smtp/Transactions.antt =====
-- A whole transaction of an SMTP client: a new connection, MAIL FROM, RCPT TO, DATA. The session does
-- not know whether AUTH was ever given.
use email_proxy.Prelude.{
  ℕ, ◌≡◌, ◌≢◌, refl, sym, ap, ◌∙◌, List, [], ◌∷◌, ◌++◌, map, Option, none, some, arith,
}
use email_proxy.Prelude.Results.{Result, ok}
use email_proxy.Text.{Text, clean_email}
use email_proxy.Models.{Mail, queued}
use email_proxy.Services.{Env, World}
use mathlib.Core.Path.{subst}
use email_proxy.Smtp.{Session, new_session, reset, mail}
use email_proxy.Smtp.Mime.{MimeReader}
use email_proxy.Smtp.Laws.{IsAdmitted, rcpt_all, session_of_commands}
use email_proxy.Smtp.Receive.{Now, simple_mail, mime_mail, job_of, parse_mail_data, data_command}
use email_proxy.Smtp.Intake.{Ends, data_command_lem}
use email_proxy.Smtp.Server.{backend_new_session}

cons_of : (s : Text) → s ≢ [] → (c : ℕ) × (rest : Text) × (s ≡ c ∷ rest)
cons_of [] other = absurd (other refl)
cons_of (c ∷ rest) other = (c, rest, refl)

module _ (e : Env) where
  -- What a session with a sender and a recipient leaves behind when Data answers without an error.
  abbrev pub IsStored : Session → World e.services → World e.services → Type 0
  IsStored s w w' =
      (m : Mail) × (m.from_address ≡ s.from)
      × (m.to_addresses ≡ s.to)
      × (m.status ≡ queued)
      × (e.services.row m.id w'.db ≡ some m)
      × (e.services.waiting e.config.mail_queue_name w'.broker
          ≡ e.services.waiting e.config.mail_queue_name w.broker
            ++ e.platform.marshal_job (job_of m) ∷ [])

module _ (e : Env) (now : Now) where
  -- The mail that is read from a message has the sender and the recipients of the session.
  parse_keeps :
      (fuel : ℕ) (create_reader : Text → Result MimeReader) (c : ℕ) (from : Text) (to : Text)
      (tos : List Text) (raw : Text) (w w' : World e.services) (m : Mail)
      → let s : Session = record { from = c ∷ from; to = to ∷ tos } in
        parse_mail_data e now fuel create_reader s raw w ≡ some (w', m)
        → (m.from_address ≡ c ∷ from) × (m.to_addresses ≡ to ∷ tos) × (m.status ≡ queued)
  unfolding parse_mail_data simple_mail mime_mail
  parse_keeps fuel create_reader c from to tos raw w w' m h = ground arith

  data_stores :
      (fuel : ℕ) (create_reader : Text → Result MimeReader) (c : ℕ) (from to : Text)
      (tos : List Text) (raw : Text) (w w' : World e.services)
      → let s : Session = record { from = c ∷ from; to = to ∷ tos } in
        ((reader : MimeReader) → create_reader raw ≡ ok reader → Ends fuel reader)
        → data_command e now fuel create_reader s (ok raw) w ≡ some (w', none)
        → IsStored e s w w'
  data_stores fuel create_reader c from to tos raw w w' ends done =
      let s : Session = record { from = c ∷ from; to = to ∷ tos } in
      let (w_1, error, ran, stored) = data_command_lem e now fuel create_reader s raw w ends in
      let both : ◌≡◌ {A = Option (World e.services × Option Text)} (some (w_1, error))
          (some (w', none)) =
        sym ran ∙ done in
      let same_error : error ≡ none = cc in
      let same_world : w_1 ≡ w' = cc in
      let r = stored same_error in
      let (sender, recipients, waits) =
        parse_keeps fuel create_reader c from to tos raw w r.parsed_world r.received r.parsed_is in
      (
        r.received,
        sender,
        recipients,
        waits,
        ap (λ (v : World e.services). e.services.row r.received.id v.db) (sym same_world)
            ∙ r.row_is,
        ap (λ (v : World e.services). e.services.waiting e.config.mail_queue_name v.broker)
              (sym same_world)
            ∙ r.message_is,
      )

  -- A client that connects, names an admitted sender and at least one recipient, and sends a message to
  -- which Data answers without an error, has a mail stored and queued with the cleaned sender and the
  -- cleaned recipients in order. Nothing else is asked for: not AUTH either, whatever the settings say.
  pub transaction_accepted :
      (fuel : ℕ) (create_reader : Text → Result MimeReader) (hostname from to : Text)
      (tos : List Text) (raw : Text) (w w' : World e.services)
      → IsAdmitted e from
      → clean_email from ≢ []
      → ((reader : MimeReader) → create_reader raw ≡ ok reader → Ends fuel reader)
      → let s = rcpt_all (to ∷ tos) (mail e from (backend_new_session hostname)).0 in
        data_command e now fuel create_reader s (ok raw) w ≡ some (w', none)
        → (m : Mail) × (m.from_address ≡ clean_email from)
          × (m.to_addresses ≡ map clean_email (to ∷ tos))
          × (m.status ≡ queued)
          × (e.services.row m.id w'.db ≡ some m)
          × (e.services.waiting e.config.mail_queue_name w'.broker
              ≡ e.services.waiting e.config.mail_queue_name w.broker
                ++ e.platform.marshal_job (job_of m) ∷ [])
  unfolding backend_new_session new_session reset
  transaction_accepted fuel create_reader hostname from to tos raw w w' admitted named ends done =
      let (c, rest, starts) = cons_of (clean_email from) named in
      let session : rcpt_all (to ∷ tos) (mail e from (backend_new_session hostname)).0
          ≡ record { from = clean_email from; to = map clean_email (to ∷ tos) } =
        session_of_commands e from (to ∷ tos) new_session admitted in
      let begun : rcpt_all (to ∷ tos) (mail e from (backend_new_session hostname)).0
          ≡ record { from = c ∷ rest; to = map clean_email (to ∷ tos) } =
        session ∙ ap (λ (f : Text). record { from = f; to = map clean_email (to ∷ tos) }) starts in
      subst (λ (f : Text). IsStored e (record { from = f; to = map clean_email (to ∷ tos) }) w w')
        (sym starts)
        (data_stores fuel create_reader c rest (clean_email to) (map clean_email tos) raw w w' ends
          (ap (λ (s : Session). data_command e now fuel create_reader s (ok raw) w) (sym begun)
            ∙ done))
