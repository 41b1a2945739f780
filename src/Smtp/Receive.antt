-- ===== src/Smtp/Receive.antt =====
-- internal/smtp/session.go `Data`: from the bytes of a message to a queued mail.
use email_proxy.Prelude.{
  ℕ, ◌-◌, ◌*◌, ◌%◌, ◌^◌, Bool, ◌&&◌, ◌||◌, leb, List, [], ◌∷◌, ◌++◌, map, Option, none, some,
  length, ltb, if◌then◌else◌,
}
use email_proxy.Prelude.Results.{Result, ok, err}
use email_proxy.Text.{Text, text, is_empty, decimal}
use email_proxy.Models.{
  Attachment, AttachmentInfo, Mail, MailJob, queued, failed, set_status_column,
}
use email_proxy.Services.{Env, World}
use email_proxy.Keydb.{set_status}
use email_proxy.Queue.{publish_mail}
use email_proxy.Smtp.{Session}
use email_proxy.Smtp.Mime.{MimeReader, Collected, read_parts, or_text}
use email_proxy.Smtp.Save.{save_all}

-- The times and the UUIDs of one call: the date of the storage path, the time in RFC 3339, the Unix
-- time, and the n-th new UUID.
pub record Now : Type 0 where
  pub today : Text
  pub stamp : Text
  pub unix : ℕ
  pub fresh : ℕ → Text

-- A header's addresses; none if they cannot be read.
abbrev pub addresses : Result (List Text) → List Text
addresses (ok list) = list
addresses (err _) = []

abbrev first_or_empty : List Text → Text
first_or_empty [] = []
first_or_empty (a ∷ _) = a

-- The recipients of the session come before those of the header.
abbrev pub or_list : List Text → List Text → List Text
or_list [] later = later
or_list (a ∷ list) later = a ∷ list

-- The raw message, if neither a text nor an HTML body was found.
abbrev pub text_or_raw : Collected → Text → Text
text_or_raw c raw = if is_empty c.body_text && is_empty c.body_html then raw else c.body_text

abbrev inbound_id : Text
inbound_id = text "smtp-inbound"

abbrev inbound_name : Text
inbound_name = text "SMTP Receiver"

-- `createSimpleMailJob`: a message that is not MIME.
unfoldable pub simple_mail : Now → Session → Text → Mail
simple_mail now s raw = record {
  id = now.fresh 0;
  from_address = s.from;
  to_addresses = s.to;
  cc_addresses = [];
  bcc_addresses = [];
  subject = text "(No Subject)";
  body = raw;
  html = [];
  status = queued;
  retry_count = 0;
  error_message = [];
  sent_at = none;
  client_id = inbound_id;
  client_name = inbound_name;
  metadata =
      (text "source", inbound_id)
      ∷ (text "raw_content", text "true")
      ∷ (text "received_at", now.stamp)
      ∷ [];
  sender_config_id = none;
  attachments = [];
}

-- The row for a message whose parts have been read.
unfoldable pub mime_mail : Now → Session → MimeReader → Collected → Text → Mail
mime_mail now s reader c raw = record {
  id = now.fresh (length c.attachments);
  from_address = or_text s.from (first_or_empty (addresses (reader.address_list (text "From"))));
  to_addresses = or_list s.to (addresses (reader.address_list (text "To")));
  cc_addresses = addresses (reader.address_list (text "Cc"));
  bcc_addresses = addresses (reader.address_list (text "Bcc"));
  subject = reader.subject;
  body = text_or_raw c raw;
  html = c.body_html;
  status = queued;
  retry_count = 0;
  error_message = [];
  sent_at = none;
  client_id = inbound_id;
  client_name = inbound_name;
  metadata = (text "source", inbound_id) ∷ (text "received_at", now.stamp) ∷ [];
  sender_config_id = none;
  attachments = [];
}

abbrev info : Attachment → AttachmentInfo
info a = record {
  filename = a.filename;
  content_type = a.content_type;
  size_bytes = a.size_bytes;
  storage_path = a.storage_path;
}

-- The message for the worker.
unfoldable pub job_of : Mail → MailJob
job_of m = record {
  mail_id = m.id;
  from_address = m.from_address;
  to_addresses = m.to_addresses;
  cc_addresses = m.cc_addresses;
  bcc_addresses = m.bcc_addresses;
  subject = m.subject;
  body = m.body;
  html = m.html;
  attachments = map info m.attachments;
  metadata = m.metadata;
  retry_count = 0;
  sender_config_id = [];
}

-- `int64(s.cfg.SMTPMaxMessageSize) * 1024 * 1024`, as a bit pattern.
unfoldable pub max_size_bytes : ℕ → ℕ
max_size_bytes megabytes = megabytes * 1024 * 1024 % 2 ^ 64

-- A size is never negative, so a limit that has wrapped to a negative number is below every size.
unfoldable pub exceeds_limit : ℕ → ℕ → Bool
exceeds_limit size most = leb (2 ^ 63) most || ltb most size

abbrev signed_decimal : ℕ → Text
signed_decimal n = if ltb n (2 ^ 63) then decimal n else text "-" ++ decimal (2 ^ 64 - n)

abbrev pub too_large : ℕ → ℕ → Text
too_large size most =
    text "message too large: "
    ++ decimal size
    ++ text " bytes (max: "
    ++ signed_decimal most
    ++ text " bytes)"

module _ (e : Env) (now : Now) where
  -- `parseMailData`. `create_reader` is the library's mail.CreateReader; `none` as in `read_parts`.
  unfoldable pub parse_mail_data :
      ℕ
      → (Text → Result MimeReader)
      → Session
      → Text
      → World e.services
      → Option (World e.services × Mail)
  parse_mail_data fuel create_reader s raw w = elim (create_reader raw) [
    | err _ ↦ some (w, simple_mail now s raw)
    | ok reader ↦
        elim (read_parts now.unix now.fresh reader.next_part fuel 0
          (record { body_text = []; body_html = []; attachments = [] })) [
            | none ↦ none
            | some c ↦
                let m = mime_mail now s reader c raw in
                let (w', saved) = save_all e now.today m.id c.attachments w in
                some (w', record m { attachments = saved })
          ]
  ]

  -- Publishing, and the status of the mail after it.
  unfoldable pub enqueue : Mail → World e.services → World e.services × Option Text
  enqueue m w =
      let (w', not_published) = publish_mail e (job_of m) w in
      elim not_published [
        | some cause ↦ (
          record w' { db = (e.services.update_mail m.id (set_status_column failed) w'.db).0 },
          some (text "failed to queue mail: " ++ cause),
        )
        | none ↦ ((set_status e now.stamp m.id (text "queued") 0 [] w').0, none)
      ]

  unfoldable pub store_and_enqueue : Mail → World e.services → World e.services × Option Text
  store_and_enqueue m w =
      let (db, not_created) = e.services.create_mail m w.db in
      let created = record w { db = db } in
      elim not_created [
        | some cause ↦ (created, some (text "failed to create mail record: " ++ cause))
        | none ↦ enqueue m created
      ]

  -- `Data`, with what reading the message returned. The result is the error, or `none` for nil.
  unfoldable pub data_command :
      ℕ
      → (Text → Result MimeReader)
      → Session
      → Result Text
      → World e.services
      → Option (World e.services × Option Text)
  data_command fuel create_reader s (err cause) w =
      some (w, some (text "failed to read mail data: " ++ cause))
  data_command fuel create_reader s (ok raw) w =
      let most = max_size_bytes e.config.smtp_max_message_size in
      if exceeds_limit (length raw) most
      then some (w, some (too_large (length raw) most))
      else (elim (parse_mail_data fuel create_reader s raw w) [
        | none ↦ none
        | some (w', m) ↦ some (store_and_enqueue m w')
      ])
