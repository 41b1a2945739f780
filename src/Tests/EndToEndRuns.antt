-- ===== src/Tests/EndToEndRuns.antt =====
-- A mail of the API and a message of the SMTP receiver, until they are sent.
use email_proxy.Prelude.{ℕ, ◌≡◌, ◌≢◌, refl, [], ◌∷◌, none, some, arith, Option}
use email_proxy.Prelude.Results.{Result, ok, err}
use email_proxy.Text.{Text, text, text_eq, to_lower, has_suffix}
use email_proxy.Models.{MailJob}
use email_proxy.Services.{World}
use email_proxy.Keydb.{set_status}
use email_proxy.Queue.{publish, publish_mail}
use email_proxy.Router.{accepted, panicked, in_domain, send_mail, route}
use email_proxy.Worker.{attempt}
use email_proxy.Worker.Delivery.{Round}
use email_proxy.Api.{text_claim, Context, mail_queued}
use email_proxy.Api.Attachments.{store_attachments}
use email_proxy.Api.Mails.{
  SendRequest, find_stored_config, find_sender_config, new_mail, enqueue, create_and_enqueue,
  submit, respond, send,
}
use email_proxy.Api.Mails
use email_proxy.Smtp.{Session}
use email_proxy.Smtp.Mime.{MimeReader}
use email_proxy.Smtp.Receive
use email_proxy.Smtp.Receive.{
  exceeds_limit, max_size_bytes, parse_mail_data, store_and_enqueue, data_command,
}
use email_proxy.Smtp.Intake.{Ends}
use email_proxy.Worker.Delivery.Rounds.{counted}
use email_proxy.EndToEnd.{
  IsReadAs, IsUndisturbed, IsDelivered, send-IsDelivered, data_command-IsDelivered,
}
use email_proxy.Tests.Codec.{full_env, jobs_back}
use email_proxy.Tests.Fixture.{services, services_reliable, no_mails, noon, later, mailer}

abbrev round : ℕ → Round full_env
round k = record { started = noon; ended = later; mailer = mailer accepted; others = λ w. w }

never_panics :
    (k : ℕ) (v : World services) (j : MailJob) → attempt full_env (round k).mailer v j ≢ panicked
unfolding attempt send_mail route
never_panics k v j h = absurd (ground arith)

round-IsUndisturbed : (id : Text) → IsUndisturbed full_env round id
round-IsUndisturbed id = record { calm = never_panics; kept = λ k v. refl }

abbrev context : Context
context = record {
  client_id = some (text_claim (text "client_1"));
  client_name = some (text_claim (text "one"));
  department = none;
  permissions = none;
  client_token_id = some (text_claim (text "t1"));
}

abbrev request : SendRequest
request = record {
  from = text "bob@x.y";
  to = text "x@y.z" ∷ [];
  cc = [];
  bcc = [];
  subject = text "hi";
  body = text "hello";
  html = [];
  attachments = [];
  metadata = [];
}

abbrev now : Mails.Now
now = record {
  today = text "2025/01/02";
  stamp = text "12:00";
  mail_id = text "a1";
  fresh = λ n. n ∷ [];
}

abbrev queued_world : World services
queued_world = (send full_env none context now (ok request) no_mails).0

answer :
    send full_env none context now (ok request) no_mails ≡ (queued_world, mail_queued (text "a1"))
unfolding text_eq to_lower has_suffix in_domain find_stored_config find_sender_config
    store_attachments new_mail publish publish_mail set_status enqueue create_and_enqueue submit
    respond send
answer = refl

send-IsDelivered_example : IsDelivered full_env round 4 (text "a1") no_mails queued_world
send-IsDelivered_example =
    send-IsDelivered full_env round 4 services_reliable jobs_back (omega arith) none context now
      request no_mails queued_world (text "a1") answer (round-IsUndisturbed (text "a1"))

-- A message that no reader can be made for is read as plain text.
abbrev no_reader : Text → Result MimeReader
no_reader raw = err (text "malformed MIME header")

abbrev session : Session
session = record { from = text "bob@x.y"; to = text "x@y.z" ∷ [] }

abbrev received_now : Receive.Now
received_now = record {
  today = text "2025/01/02";
  stamp = text "12:00";
  unix = 7;
  fresh = λ n. n ∷ [];
}

no_reader-Ends : (r : MimeReader) → no_reader (text "raw") ≡ ok r → Ends 3 r
no_reader-Ends r h = cc

abbrev world_of : Option (World services × Option Text) → World services
world_of none = no_mails
world_of (some (w, error)) = w

abbrev received_world : World services
received_world =
    world_of (data_command full_env received_now 3 no_reader session (ok (text "raw")) no_mails)

receives :
    data_command full_env received_now 3 no_reader session (ok (text "raw")) no_mails
    ≡ some (received_world, none)
unfolding data_command exceeds_limit max_size_bytes parse_mail_data store_and_enqueue publish
    publish_mail set_status text_eq Receive.enqueue
receives = refl

read_exactly : (j : MailJob) → IsReadAs full_env j j
read_exactly j = record {
  reads = jobs_back j;
  same_id = refl;
  same_count = refl;
  steady = λ n. jobs_back (counted j n);
}

data_command-IsDelivered_example :
    (i : ℕ) × IsDelivered full_env round 4 (received_now.fresh i) no_mails received_world
data_command-IsDelivered_example =
    data_command-IsDelivered full_env round 4 received_now 3 no_reader session (text "raw") no_mails
      received_world no_reader-Ends services_reliable (omega arith) (λ j i h. (j, read_exactly j))
      receives (λ i. round-IsUndisturbed (received_now.fresh i))
