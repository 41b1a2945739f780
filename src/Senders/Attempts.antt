-- ===== src/Senders/Attempts.antt =====
-- An attempt of the worker, through the services that cmd/worker/main.go gives it.
use email_proxy.Prelude.{
  ◌≡◌, ◌⊎◌, none, inl, inr, true, false, Bool-cases, Option-cases, some, arith,
}
use email_proxy.Prelude.Results.{Result, ok, Result-cases}
use email_proxy.Text.{Text, is_empty}
use email_proxy.Models.{EmailSenderConfig, MailJob}
use email_proxy.Services.{Env, World}
use email_proxy.Encryption.{EncryptionService}
use email_proxy.SenderConfig.{get_decrypted_config}
use email_proxy.Router.{accepted, in_domain, route, send_mail, new_mail_router}
use email_proxy.Worker.{attempt, send_configured}
use email_proxy.Senders.Graph.{GraphApi, graph_sender, graph_send_with_config}
use email_proxy.Senders.Sendgrid.{SgMail, SgResponse, sendgrid_sender}
use email_proxy.Senders.Laws.{IsTakenByGraph, IsTakenBySendgrid, graph_sent, sendgrid_sent}
use email_proxy.Senders.Process.{Tokens, encryption_of, worker_router, worker_mailer}

module _ (e : Env) (api : GraphApi) (send : SgMail → Result SgResponse) (tokens : Tokens)
    (w : World e.services) where
  -- The job names no configuration, or the worker has no key to decrypt one.
  abbrev pub IsUnconfigured : MailJob → Type 0
  IsUnconfigured job =
      (encryption_of e.config.encryption_key ≡ none) ⊎ (is_empty job.sender_config_id ≡ true)

  -- Who took a mail. A job without a configuration: Graph with the token of the settings for a sender
  -- in the organization, and SendGrid for any other. A job that names a configuration, if there is a
  -- key: Graph with a token for this configuration.
  pub data IsTaken (job : MailJob) : Type 0 where
    by_graph :
        IsUnconfigured job
        → in_domain e.platform.unicode_lower job.from_address e.config.org_email_domain ≡ true
        → IsTakenByGraph api e w tokens.own job
        → IsTaken job
    by_sendgrid :
        IsUnconfigured job
        → in_domain e.platform.unicode_lower job.from_address e.config.org_email_domain ≡ false
        → IsTakenBySendgrid api e w send job
        → IsTaken job
    by_configuration :
        (encryption : EncryptionService) (id : Text) (config : EmailSenderConfig) (secret : Text)
        → encryption_of e.config.encryption_key ≡ some encryption
        → is_empty job.sender_config_id ≡ false
        → e.platform.parse_uuid job.sender_config_id ≡ ok id
        → get_decrypted_config e encryption id w ≡ ok (config, secret)
        → IsTakenByGraph api e w (tokens.for config.ms_tenant_id config.ms_client_id secret) job
        → IsTaken job

  routed :
      (job : MailJob)
      → IsUnconfigured job
      → send_mail e.platform.unicode_lower (worker_router e api send tokens w) job ≡ accepted
      → IsTaken job
  unfolding send_mail route worker_router new_mail_router in_domain graph_sender sendgrid_sender
  routed job plain h =
      elim (Bool-cases
        (in_domain e.platform.unicode_lower job.from_address e.config.org_email_domain)) [
          | inl inside ↦ by_graph plain inside (graph_sent api e w tokens.own job (ground arith))
          | inr outside ↦ by_sendgrid plain outside (sendgrid_sent api e w send job (ground arith))
        ]

  configured :
      (encryption : EncryptionService) (job : MailJob)
      → encryption_of e.config.encryption_key ≡ some encryption
      → is_empty job.sender_config_id ≡ false
      → send_configured e (worker_mailer e api send tokens w) encryption w job ≡ accepted
      → IsTaken job
  unfolding send_configured worker_mailer graph_send_with_config
  configured encryption job has_key named h =
      elim (Result-cases (e.platform.parse_uuid job.sender_config_id)) [
        | inr (cause, bad) ↦ absurd (ground arith)
        | inl (id, parsed) ↦ elim (Result-cases (get_decrypted_config e encryption id w)) [
          | inr (cause, bad) ↦ absurd (ground arith)
          | inl ((config, secret), decrypted) ↦
              by_configuration encryption id config secret has_key named parsed decrypted
                (graph_sent api e w _ job (ground arith))
        ]
      ]

  -- An attempt of the worker that counts as sent was taken by a service. If the job names a
  -- configuration and the worker has a key, it was Graph with a token for this configuration.
  -- Otherwise it was Graph with the token of the settings if the sender is in the organization, and
  -- SendGrid if it is not. Every attachment was sent.
  pub attempt_accepted :
      (job : MailJob) → attempt e (worker_mailer e api send tokens w) w job ≡ accepted → IsTaken job
  unfolding attempt worker_mailer
  attempt_accepted job h = elim (Option-cases (encryption_of e.config.encryption_key)) [
    | inl no_key ↦ routed job (inl no_key) (ground arith)
    | inr (encryption, has_key) ↦ elim (Bool-cases (is_empty job.sender_config_id)) [
      | inl unnamed ↦ routed job (inr unnamed) (ground arith)
      | inr named ↦ configured encryption job has_key named (ground arith)
    ]
  ]
