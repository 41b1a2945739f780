-- ===== src/Senders/Process.antt =====
-- cmd/worker/main.go: what the worker sends through, built from the settings. cmd/api/main.go: what the
-- API starts with.
use email_proxy.Prelude.{[], ◌∷◌, Option, none, some}
use email_proxy.Prelude.Results.{Result, ok, err}
use email_proxy.Text.{Text}
use email_proxy.Services.{Env, World}
use email_proxy.Encryption.{EncryptionService, new_encryption_service}
use email_proxy.Router.{MailRouter, new_mail_router}
use email_proxy.Worker.{Mailer}
use email_proxy.Tokens.{Crypto, Fresh}
use email_proxy.Tokens.Admin.{initialize_admin_token}
use email_proxy.Api.Routes.{Dependencies}
use email_proxy.Senders.Graph.{GraphApi, graph_send_with_config, graph_sender}
use email_proxy.Senders.Sendgrid.{SgMail, SgResponse, sendgrid_sender}

-- The services of one call: the token that the OAuth service of the settings returns in it, and
-- those that the manager returns for given settings.
pub record Tokens : Type 0 where
  pub own : Result Text
  pub for : Text → Text → Text → Result Text

-- The service for the stored settings is nil without a key, or with one of the wrong size.
unfoldable pub encryption_of : Text → Option EncryptionService
encryption_of [] = none
encryption_of (c ∷ key) = elim (new_encryption_service (c ∷ key)) [ ok s ↦ some s | err _ ↦ none ]

module _ (e : Env) (api : GraphApi) (send : SgMail → Result SgResponse) (tokens : Tokens)
    (w : World e.services) where
  unfoldable pub worker_router : MailRouter
  worker_router =
      new_mail_router e.platform.unicode_lower e.config (some (graph_sender api e w tokens.own))
        (some (sendgrid_sender send e w))

  unfoldable pub worker_mailer : Mailer
  worker_mailer = record {
    mail_router = worker_router;
    sender_config_service = encryption_of e.config.encryption_key;
    send_mail_with_config = graph_send_with_config api e w tokens.for;
  }

-- The API creates the token of the administrator, whose error is only logged, before it serves.
unfoldable pub start_api : (e : Env) → Crypto → Fresh → World e.services → World e.services
start_api e crypto fresh w = (initialize_admin_token e crypto fresh w).0

unfoldable pub api_dependencies : Env → Crypto → Dependencies
unfolding encryption_of
api_dependencies e crypto = record {
  crypto = crypto;
  sender_config_service = encryption_of e.config.encryption_key;
}
