-- ===== src/Senders/Graph.antt =====
-- internal/services/smtp_service.go: a mail as a request to Microsoft Graph. HTTP and JSON are a
-- parameter.
use email_proxy.Prelude.{
  ℕ, Bool, true, ◌||◌, List, [], ◌++◌, map, Option, none, some, ◌==◌, if◌then◌else◌,
}
use email_proxy.Prelude.Results.{Result, ok, err}
use email_proxy.Text.{Text, text, decimal, is_empty}
use email_proxy.Models.{MailJob}
use email_proxy.Services.{Env, World}
use email_proxy.Router.{Outcome, accepted, refused, MailSender}
use email_proxy.Senders.{Loaded, load_attachments}

pub record GraphBody : Type 0 where
  pub content_type : Text
  pub content : Text

pub record GraphEmailAddress : Type 0 where
  pub address : Text

pub record GraphRecipient : Type 0 where
  pub email_address : GraphEmailAddress

pub record GraphAttachment : Type 0 where
  pub odata_type : Text
  pub name : Text
  pub content_type : Text
  pub content_bytes : Text

pub record GraphMessage : Type 0 where
  pub subject : Text
  pub body : GraphBody
  pub to_recipients : List GraphRecipient
  pub cc_recipients : List GraphRecipient
  pub bcc_recipients : List GraphRecipient
  pub attachments : List GraphAttachment

pub record GraphMailRequest : Type 0 where
  pub message : GraphMessage
  pub save_to_sent_items : Bool

pub record GraphErrorResponse : Type 0 where
  pub code : Text
  pub message : Text

pub record HttpRequest : Type 0 where
  pub url : Text
  pub authorization : Text
  pub content_type : Text
  pub body : Text

-- A status and what io.ReadAll read of the body.
pub record HttpResponse : Type 0 where
  pub status : ℕ
  pub body : Text

-- `url_error` is the error of http.NewRequest, which reads the URL; a request holds no value that JSON
-- cannot hold, so json.Marshal does not fail.
pub record GraphApi : Type 0 where
  pub marshal_request : GraphMailRequest → Text
  pub url_error : Text → Option Text
  pub call : HttpRequest → Result HttpResponse
  pub unmarshal_error : Text → Result GraphErrorResponse

unfoldable pub recipient : Text → GraphRecipient
recipient address = record { email_address = record { address = address } }

-- The HTML of a mail is sent if there is any, and its text otherwise.
unfoldable pub graph_body : MailJob → GraphBody
graph_body job =
    if is_empty job.html
    then record { content_type = text "text"; content = job.body }
    else record { content_type = text "html"; content = job.html }

unfoldable pub build_graph_request : MailJob → GraphMailRequest
build_graph_request job = record {
  message = record {
    subject = job.subject;
    body = graph_body job;
    to_recipients = map recipient job.to_addresses;
    cc_recipients = map recipient job.cc_addresses;
    bcc_recipients = map recipient job.bcc_addresses;
    attachments = [];
  };
  save_to_sent_items = true;
}

unfoldable pub graph_attachment : Loaded → GraphAttachment
graph_attachment a = record {
  odata_type = text "#microsoft.graph.fileAttachment";
  name = a.name;
  content_type = a.content_type;
  content_bytes = a.content;
}

-- The request after `loadAttachments`.
unfoldable pub with_attachments : List Loaded → GraphMailRequest → GraphMailRequest
with_attachments all r = record r {
  message = record r.message { attachments = map graph_attachment all };
}

unfoldable pub graph_url : MailJob → Text
graph_url job =
    text "https://graph.microsoft.com/v1.0/users/" ++ job.from_address ++ text "/sendMail"

unfoldable pub is_success : ℕ → Bool
is_success status = status == 202 || status == 200

module _ (api : GraphApi) where
  -- The error of a response that is no success.
  unfoldable pub graph_error : HttpResponse → Text
  graph_error response =
      let plain =
        text "Graph API request failed with status "
        ++ decimal response.status
        ++ text ": "
        ++ response.body in
      elim (api.unmarshal_error response.body) [
        | err _ ↦ plain
        | ok e ↦
            if is_empty e.message
            then plain
            else text "Graph API error (" ++ e.code ++ text "): " ++ e.message
      ]

  unfoldable pub read_response : Result HttpResponse → Outcome
  read_response (err cause) = refused (text "failed to send request: " ++ cause)
  read_response (ok response) =
      if is_success response.status then accepted else refused (graph_error response)

  unfoldable pub http_request : Text → MailJob → List Loaded → HttpRequest
  http_request token job all = record {
    url = graph_url job;
    authorization = text "Bearer " ++ token;
    content_type = text "application/json";
    body = api.marshal_request (with_attachments all (build_graph_request job));
  }

  unfoldable pub post_mail : Text → MailJob → List Loaded → Outcome
  post_mail token job all = elim (api.url_error (graph_url job)) [
    | some cause ↦ refused (text "failed to create request: " ++ cause)
    | none ↦ read_response (api.call (http_request token job all))
  ]

  module _ (e : Env) (w : World e.services) where
    -- SendMail, given what the OAuth service returned.
    unfoldable pub graph_send : Result Text → MailJob → Outcome
    graph_send (err cause) job = refused (text "failed to get access token: " ++ cause)
    graph_send (ok token) job = elim (load_attachments e w job.attachments) [
      | err cause ↦ refused (text "failed to load attachments: " ++ cause)
      | ok all ↦ post_mail token job all
    ]

    -- SendMailWithConfig, which does the same with a token from the manager.
    unfoldable pub graph_send_with_config :
        (Text → Text → Text → Result Text) → MailJob → Text → Text → Text → Outcome
    graph_send_with_config token_for job tenant_id client_id client_secret =
        graph_send (token_for tenant_id client_id client_secret) job

    -- The service as a MailSender, for a call in which its OAuth service returned `token`.
    unfoldable pub graph_sender : Result Text → MailSender
    graph_sender token = record { name = text "Microsoft Graph API"; send_mail = graph_send token }
