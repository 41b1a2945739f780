-- ===== src/Tests/Fixture.antt =====
-- A program built on services that are held in functions.
pub mod Held
pub use Held.{ok-injective, services, services_reliable}
use mathlib.Core.Option
use email_proxy.Prelude.{[], ◌∷◌, ◌++◌, true, false, none, some, if◌then◌else◌, length, take, drop}
use email_proxy.Prelude.Results.{Result, ok, err}
use email_proxy.Text.{Text, text, text_eq}
use email_proxy.Config.{Config}
use email_proxy.Models.{Mail, queued, MailJob, MailStatusCache}
use email_proxy.Router.{Outcome, MailRouter}
use email_proxy.Worker.{Moment, Mailer}
use email_proxy.Services.{Platform, Env, World}

abbrev pub blank_job : MailJob
blank_job = record {
  mail_id = [];
  from_address = [];
  to_addresses = [];
  cc_addresses = [];
  bcc_addresses = [];
  subject = [];
  body = [];
  html = [];
  attachments = [];
  metadata = [];
  retry_count = 0;
  sender_config_id = [];
}

-- A job is stored as its retry count and its id.
abbrev unmarshal_job : Text → Result MailJob
unmarshal_job [] = err (text "unexpected end of JSON input")
unmarshal_job (n ∷ id) = ok (record blank_job { mail_id = id; retry_count = n })

-- A text behind its length, and what follows it.
abbrev pub put : Text → Text
put s = length s ∷ s

abbrev pub get : Text → Text × Text
get [] = ([], [])
get (n ∷ s) = (take n s, drop n s)

abbrev marshal_status : MailStatusCache → Text
marshal_status s =
    s.retry_count ∷ put s.mail_id ++ put s.status ++ put s.last_updated ++ s.error_message

abbrev unmarshal_status : Text → Result MailStatusCache
unmarshal_status [] = err (text "unexpected end of JSON input")
unmarshal_status (n ∷ rest) =
    let (id, rest_1) = get rest in
    let (status, rest_2) = get rest_1 in
    let (updated, rest_3) = get rest_2 in
    ok (record {
      mail_id = id;
      status = status;
      retry_count = n;
      last_updated = updated;
      error_message = rest_3;
    })

abbrev pub platform : Platform
platform = record {
  unicode_lower = λ s. s;
  parse_uuid = λ s. ok s;
  marshal_job = λ job. job.retry_count ∷ job.mail_id;
  unmarshal_job = unmarshal_job;
  marshal_status = marshal_status;
  unmarshal_status = unmarshal_status;
  base64_encode = λ s. s;
  base64_decode = λ s. ok s;
  gcm_seal = λ key nonce s. s;
  gcm_open = λ key nonce s. ok s;
}

abbrev pub config : Config
config = record {
  env = text "development";
  api_port = text "8080";
  database_url = text "postgres://localhost";
  rabbitmq_url = text "amqp://localhost";
  mail_queue_name = text "mail-queue";
  retry_queue_name = text "retry-queue";
  failed_queue_name = text "failed-mails";
  max_retry_count = 5;
  keydb_url = text "localhost:6379";
  keydb_password = [];
  keydb_status_ttl = 14;
  microsoft_tenant_id = [];
  microsoft_client_id = [];
  microsoft_client_secret = [];
  sendgrid_api_key = [];
  org_email_domain = text "@ptc-nec.com.tw";
  attachment_path = text "/app/attachments";
  max_attachment_size_mb = 25;
  worker_concurrency = 10;
  worker_prefetch = 10;
  jwt_secret = text "secret";
  encryption_key = [];
  init_admin_token = true;
  admin_token_name = text "MIS Admin";
  smtp_inbound_port = text "2525";
  smtp_inbound_tls_port = text "1587";
  smtp_tls_enabled = false;
  smtp_auth_required = true;
  smtp_allowed_domains = text "@PTC-nec.com.tw" ∷ [];
  smtp_max_message_size = 25;
}

abbrev pub env : Env
env = record { platform = platform; services = services; config = config }

abbrev pub no_mails : World services
no_mails = record {
  db = record { mails = λ i. none; configs = []; tokens = [] };
  cache = λ k. none;
  broker = λ q. [];
  files = λ q. none;
}

abbrev pub sample_mail : Mail
sample_mail = record {
  id = text "a1";
  from_address = text "Bob@PTC-NEC.com.tw";
  to_addresses = text "x@y.z" ∷ [];
  cc_addresses = [];
  bcc_addresses = [];
  subject = text "hi";
  body = text "hello";
  html = [];
  status = queued;
  retry_count = 0;
  error_message = [];
  sent_at = none;
  client_id = text "client_1";
  client_name = text "one";
  metadata = [];
  sender_config_id = none;
  attachments = [];
}

-- One queued mail.
abbrev pub one_mail : World services
one_mail = record no_mails {
  db = record {
    mails = λ i. if text_eq (text "a1") i then some sample_mail else none;
    configs = [];
    tokens = [];
  };
}

abbrev pub router : Outcome → MailRouter
router outcome = record {
  graph_service = some (record { name = text "graph"; send_mail = λ job. outcome });
  sendgrid_service = some (record { name = text "sendgrid"; send_mail = λ job. outcome });
  org_domain = text "@ptc-nec.com.tw";
}

abbrev pub mailer : Outcome → Mailer
mailer outcome = record {
  mail_router = router outcome;
  sender_config_service = none;
  send_mail_with_config = λ job tenant client secret. outcome;
}

abbrev pub noon : Moment
noon = record { formatted = text "12:00"; instant = 720 }

abbrev pub later : Moment
later = record { formatted = text "12:01"; instant = 721 }
