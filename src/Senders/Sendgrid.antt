-- ===== src/Senders/Sendgrid.antt =====
-- internal/services/sendgrid_service.go: a mail as a message of SendGrid. The client of SendGrid is a
-- parameter.
use email_proxy.Prelude.{ℕ, Bool, ◌||◌, not, List, [], ◌∷◌, ◌++◌, map, leb, ltb, if◌then◌else◌}
use email_proxy.Prelude.Results.{Result, ok, err}
use email_proxy.Text.{Text, text, decimal, is_empty}
use email_proxy.Config.{Config}
use email_proxy.Models.{MailJob}
use email_proxy.Services.{Env, World}
use email_proxy.Router.{Outcome, accepted, refused, MailSender}
use email_proxy.Senders.{Loaded, load_attachments}

-- An Email of the library; the names are empty.
pub record Email : Type 0 where
  pub name : Text
  pub address : Text

pub record Content : Type 0 where
  pub content_type : Text
  pub value : Text

pub record SgAttachment : Type 0 where
  pub content : Text
  pub kind : Text
  pub filename : Text
  pub disposition : Text

-- A message with its one personalization.
pub record SgMail : Type 0 where
  pub from : Email
  pub subject : Text
  pub tos : List Email
  pub ccs : List Email
  pub bccs : List Email
  pub contents : List Content
  pub attachments : List SgAttachment

pub record SgResponse : Type 0 where
  pub status : ℕ
  pub body : Text

unfoldable pub unnamed : Text → Email
unnamed address = record { name = []; address = address }

-- A part of the body, if it is not empty.
unfoldable pub part : Text → Text → List Content
part kind [] = []
part kind (c ∷ s) = record { content_type = kind; value = c ∷ s } ∷ []

-- SendGrid wants the text in front of the HTML.
unfoldable pub contents_of : MailJob → List Content
contents_of job = part (text "text/plain") job.body ++ part (text "text/html") job.html

unfoldable pub sg_attachment : Loaded → SgAttachment
sg_attachment a = record {
  content = a.content;
  kind = a.content_type;
  filename = a.name;
  disposition = text "attachment";
}

unfoldable pub sg_mail : MailJob → List SgAttachment → SgMail
sg_mail job all = record {
  from = unnamed job.from_address;
  subject = job.subject;
  tos = map unnamed job.to_addresses;
  ccs = map unnamed job.cc_addresses;
  bccs = map unnamed job.bcc_addresses;
  contents = contents_of job;
  attachments = all;
}

unfoldable pub read_status : Result SgResponse → Outcome
read_status (err cause) = refused (text "failed to send email via SendGrid: " ++ cause)
read_status (ok response) =
    if ltb response.status 200 || leb 300 response.status
    then refused (
        text "SendGrid API error (status "
        ++ decimal response.status
        ++ text "): "
        ++ response.body)
    else accepted

module _ (send : SgMail → Result SgResponse) (e : Env) (w : World e.services) where
  unfoldable pub load_sg_attachments : MailJob → Result (List SgAttachment)
  load_sg_attachments job = elim (load_attachments e w job.attachments) [
    | err cause ↦ err cause
    | ok all ↦ ok (map sg_attachment all)
  ]

  unfoldable pub sendgrid_send : MailJob → Outcome
  sendgrid_send job = elim (load_sg_attachments job) [
    | err cause ↦ refused (text "failed to load attachments: " ++ cause)
    | ok all ↦ read_status (send (sg_mail job all))
  ]

  unfoldable pub sendgrid_sender : MailSender
  sendgrid_sender = record { name = text "SendGrid"; send_mail = sendgrid_send }

-- `IsConfigured`
unfoldable pub is_ready : Config → Bool
is_ready cfg = not (is_empty cfg.sendgrid_api_key)
