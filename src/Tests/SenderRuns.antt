-- ===== src/Tests/SenderRuns.antt =====
-- A mail with an attachment through Graph.
use email_proxy.Prelude.{◌≡◌, refl, ◌↔◌, [], ◌∷◌, none, some, if◌then◌else◌}
use email_proxy.Prelude.Results.{Result, ok, err}
use email_proxy.Text.{Text, text, text_eq, to_lower, has_suffix}
use email_proxy.Models.{MailJob}
use email_proxy.Services.{World}
use email_proxy.Router.{accepted, send_mail, route, new_mail_router}
use email_proxy.Worker.{attempt}
use email_proxy.Senders.{load_attachments, load_attachment}
use email_proxy.Senders.Graph.{
  GraphApi, graph_send, graph_sender, post_mail, read_response, is_success,
}
use email_proxy.Senders.Sendgrid.{SgMail, SgResponse}
use email_proxy.Senders.Laws.{IsTakenByGraph, graph_send-accepted_iff}
use email_proxy.Senders.Process.{Tokens, encryption_of, worker_router, worker_mailer}
use email_proxy.Senders.Attempts.{IsTaken, attempt_accepted}
use email_proxy.Tests.Fixture.{env, services, no_mails, blank_job}

-- A request that has a bearer token is answered with status 202.
abbrev api : GraphApi
api = record {
  marshal_request = λ r. r.message.subject;
  url_error = λ url. none;
  call = λ r. ok (record { status = 202; body = r.authorization });
  unmarshal_error = λ body. err (text "invalid character");
}

abbrev with_file : World services
with_file = record no_mails {
  files = λ q. if text_eq (text "/a/n") q then some (text "abc") else none;
}

abbrev job : MailJob
job = record blank_job {
  mail_id = text "a1";
  from_address = text "Bob@PTC-NEC.com.tw";
  attachments =
      record { filename = text "n"; content_type = []; size_bytes = 3; storage_path = text "/a/n" }
      ∷ [];
}

abbrev token : Result Text
token = ok (text "t")

abbrev send : SgMail → Result SgResponse
send mail = err (text "unauthorized")

abbrev tokens : Tokens
tokens = record { own = token; for = λ tenant client secret. err (text "no") }

graph_send-accepted_iff_example :
    (graph_send api env with_file token job ≡ accepted) ↔ IsTakenByGraph api env with_file token job
graph_send-accepted_iff_example = graph_send-accepted_iff api env with_file token job

it_is_accepted : graph_send api env with_file token job ≡ accepted
unfolding graph_send load_attachments load_attachment text_eq post_mail read_response is_success
it_is_accepted = refl

attempt_is_accepted :
    attempt env (worker_mailer env api send tokens with_file) with_file job ≡ accepted
unfolding attempt worker_mailer encryption_of send_mail route worker_router new_mail_router
    has_suffix to_lower graph_sender
attempt_is_accepted = it_is_accepted

attempt_accepted_example : IsTaken env api send tokens with_file job
attempt_accepted_example = attempt_accepted env api send tokens with_file job attempt_is_accepted
