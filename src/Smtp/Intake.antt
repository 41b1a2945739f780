-- ===== src/Smtp/Intake.antt =====
-- What an answer without an error to the DATA command promises.
use email_proxy.Prelude.{
  ℕ, ◌*◌, ◌≤◌, ◌<◌, ◌≡◌, ◌≢◌, refl, sym, ap, ◌∙◌, inl, inr, List, [], ◌∷◌, ◌++◌, Option, none, some,
  arith, length, false, ◌%◌, ◌^◌, Bool-cases, Option-cases,
}
use email_proxy.Prelude.Results.{Result, ok, Result-cases}
use email_proxy.Text.{Text}
use email_proxy.Text.Laws.{text_eq_refl}
use email_proxy.Models.{Mail, Attachment}
use email_proxy.Services.{Env, World}
use email_proxy.Keydb.{set_status}
use email_proxy.Queue.{publish, publish_mail, json_message}
use email_proxy.Smtp.{Session}
use email_proxy.Smtp.Mime.{MimeReader, Collected, eof, read_parts}
use email_proxy.Smtp.Parts.{add_parts, read_parts_ends}
use email_proxy.Smtp.Save.{save_attachment, save_all}
use email_proxy.Smtp.Receive.{
  Now, simple_mail, mime_mail, job_of, parse_mail_data, enqueue, store_and_enqueue, data_command,
  too_large, max_size_bytes, exceeds_limit,
}

-- The limit in bytes is at most the product, wrapped or not.
within_limit :
    (size megabytes : ℕ)
    → exceeds_limit size (max_size_bytes megabytes) ≡ false
    → size ≤ megabytes * 1024 * 1024
unfolding exceeds_limit max_size_bytes
within_limit size megabytes h =
    let fits : size ≤ megabytes * 1024 * 1024 % 2 ^ 64 = ground arith in omega (arith, fits)

-- A reader whose calls of NextPart come to an end that is within the fuel.
pub record Ends (fuel : ℕ) (reader : MimeReader) : Type 0 where
  pub calls : ℕ
  pub last : reader.next_part calls ≡ eof
  pub before : (i : ℕ) → i < calls → reader.next_part i ≢ eof
  pub enough : calls < fuel

module _ (e : Env) (now : Now) where
  enqueue_sound :
      (m : Mail) (w : World e.services)
      → (enqueue e now m w).1 ≡ none
      → ((enqueue e now m w).0.db ≡ w.db)
        × (e.services.waiting e.config.mail_queue_name (enqueue e now m w).0.broker
            ≡ e.services.waiting e.config.mail_queue_name w.broker
              ++ e.platform.marshal_job (job_of m) ∷ [])
  unfolding enqueue publish_mail publish set_status
  enqueue_sound m w h =
      let body = e.platform.marshal_job (job_of m) in
      let message = json_message e.config.mail_queue_name [] body in
      let law = e.services.waiting-publish message w.broker e.config.mail_queue_name in
      ground (arith, law, text_eq_refl e.config.mail_queue_name)

  store_sound :
      (m : Mail) (w : World e.services)
      → (store_and_enqueue e now m w).1 ≡ none
      → (e.services.row m.id (store_and_enqueue e now m w).0.db ≡ some m)
        × (e.services.waiting e.config.mail_queue_name (store_and_enqueue e now m w).0.broker
            ≡ e.services.waiting e.config.mail_queue_name w.broker
              ++ e.platform.marshal_job (job_of m) ∷ [])
  unfolding store_and_enqueue
  store_sound m w h =
      let created = record w { db = (e.services.create_mail m w.db).0 } in
      elim (Option-cases (e.services.create_mail m w.db).1) [
        | inr (cause, bad) ↦ absurd (ground arith)
        | inl good ↦
            let same : store_and_enqueue e now m w ≡ enqueue e now m created = ground arith in
            let (kept, sent) = enqueue_sound m created (sym (ap (λ r. r.1) same) ∙ h) in
            let law = e.services.row-create m w.db m.id in
            (
              ap (λ r. e.services.row m.id r.0.db) same
                  ∙ ap (e.services.row m.id) kept
                  ∙ ground (arith, law, text_eq_refl m.id),
              ap (λ r. e.services.waiting e.config.mail_queue_name r.0.broker) same ∙ sent,
            )
      ]

  save_attachment-broker :
      (today mail_id filename content : Text) (w : World e.services)
      → (save_attachment e today mail_id filename content w).0.broker ≡ w.broker
  unfolding save_attachment
  save_attachment-broker today mail_id filename content w = ground arith

  save_all-broker :
      (today mail_id : Text) (atts : List (Attachment × Text)) (w : World e.services)
      → (save_all e today mail_id atts w).0.broker ≡ w.broker
  unfolding save_all
  save_all-broker today mail_id [] w = refl
  save_all-broker today mail_id ((a, content) ∷ rest) w =
      save_all-broker today mail_id rest (save_attachment e today mail_id a.filename content w).0
      ∙ save_attachment-broker today mail_id a.filename content w

  parse_of_parts :
      (fuel : ℕ) (create_reader : Text → Result MimeReader) (s : Session) (raw : Text)
      (w : World e.services) (reader : MimeReader) (c : Collected)
      → create_reader raw ≡ ok reader
      → read_parts now.unix now.fresh reader.next_part fuel 0
          (record { body_text = []; body_html = []; attachments = [] })
        ≡ some c
      → let m = mime_mail now s reader c raw in
        let saved = save_all e now.today m.id c.attachments w in
        parse_mail_data e now fuel create_reader s raw w
        ≡ some (saved.0, record m { attachments = saved.1 })
  unfolding parse_mail_data
  parse_of_parts fuel create_reader s raw w reader c is read = ground arith

  -- Reading a message ends, and leaves the queue alone.
  parse_returns :
      (fuel : ℕ) (create_reader : Text → Result MimeReader) (s : Session) (raw : Text)
      (w : World e.services)
      → ((reader : MimeReader) → create_reader raw ≡ ok reader → Ends fuel reader)
      → (w' : World e.services) × (m : Mail) × (parse_mail_data e now fuel create_reader s raw w
          ≡ some (w', m))
        × (w'.broker ≡ w.broker)
  unfolding parse_mail_data
  parse_returns fuel create_reader s raw w ends = elim (Result-cases (create_reader raw)) [
    | inr (cause, bad) ↦ (w, simple_mail now s raw, ground arith, refl)
    | inl (reader, is) ↦
        let end = ends reader is in
        let start : Collected = record { body_text = []; body_html = []; attachments = [] } in
        let c = add_parts now.unix now.fresh reader.next_part end.calls 0 start in
        let read =
          read_parts_ends now.unix now.fresh reader.next_part end.calls fuel 0 start
            (ap reader.next_part (omega arith) ∙ end.last)
            (λ i below h. end.before i below (ap reader.next_part (omega arith) ∙ h)) end.enough in
        let m = mime_mail now s reader c raw in
        let saved = save_all e now.today m.id c.attachments w in
        (
          saved.0,
          record m { attachments = saved.1 },
          parse_of_parts fuel create_reader s raw w reader c is read,
          save_all-broker now.today m.id c.attachments w,
        )
  ]

  -- What Data has done when it returns nil.
  pub record IsReceived (fuel : ℕ) (create_reader : Text → Result MimeReader) (s : Session)
      (raw : Text) (w w' : World e.services) : Type 0 where
    pub parsed_world : World e.services
    pub received : Mail
    pub fits : length raw ≤ e.config.smtp_max_message_size * 1024 * 1024
    pub parsed_is : parse_mail_data e now fuel create_reader s raw w ≡ some (parsed_world, received)
    pub row_is : e.services.row received.id w'.db ≡ some received
    pub message_is :
        e.services.waiting e.config.mail_queue_name w'.broker
        ≡ e.services.waiting e.config.mail_queue_name w.broker
          ++ e.platform.marshal_job (job_of received) ∷ []

  -- If the library's reader comes to an end for this message, Data returns. If it returns nil, the
  -- message is within the limit, the mail that was read from it is stored, and its job stands last
  -- in the mail queue.
  pub data_command_lem :
      (fuel : ℕ) (create_reader : Text → Result MimeReader) (s : Session) (raw : Text)
      (w : World e.services)
      → ((reader : MimeReader) → create_reader raw ≡ ok reader → Ends fuel reader)
      → (w' : World e.services) × (error : Option Text) × (data_command e now fuel create_reader s
            (ok raw)
            w
          ≡ some (w', error))
        × (error ≡ none → IsReceived fuel create_reader s raw w w')
  unfolding data_command
  data_command_lem fuel create_reader s raw w ends =
      let most = max_size_bytes e.config.smtp_max_message_size in
      elim (Bool-cases (exceeds_limit (length raw) most)) [
        | inl big ↦ (w, some (too_large (length raw) most), rw (big, data_command), λ h. cc)
        | inr small ↦
            let (w_1, m, parsed, same_broker) = parse_returns fuel create_reader s raw w ends in
            let after = store_and_enqueue e now m w_1 in
            (
              after.0,
              after.1,
              rw (small, data_command) (rw parsed refl),
              λ good.
                  let (row, message) = store_sound m w_1 good in
                  record {
                    parsed_world = w_1;
                    received = m;
                    fits = within_limit (length raw) e.config.smtp_max_message_size small;
                    parsed_is = parsed;
                    row_is = row;
                    message_is =
                        message
                        ∙ ap
                            (λ b.
                              e.services.waiting e.config.mail_queue_name b
                              ++ e.platform.marshal_job (job_of m) ∷ [])
                            same_broker;
                  },
            )
      ]
