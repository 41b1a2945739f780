-- ===== src/Router.antt =====
-- internal/services/mail_router.go and internal/services/mail_sender.go: a sender in the
-- organization's domain goes through Graph API, any other through SendGrid.
pub mod Laws
use email_proxy.Prelude.{◌≡◌, refl, ◌⊎◌, inl, inr, Bool, Option, none, some, if◌then◌else◌}
use email_proxy.Prelude.Results.{is_none}
use email_proxy.Text.{Text, text, has_suffix, to_lower, is_empty}
use email_proxy.Models.{MailJob}
use email_proxy.Config.{Config}

-- How a call of SendMail ends; a call through a nil interface panics.
pub data Outcome : Type 0 where
  accepted : Outcome
  refused : Text → Outcome
  panicked : Outcome

pub Outcome-cases :
    (o : Outcome) → (o ≡ accepted) ⊎ (((cause : Text) × (o ≡ refused cause)) ⊎ (o ≡ panicked))
Outcome-cases accepted = inl refl
Outcome-cases (refused cause) = inr (inl (cause, refl))
Outcome-cases panicked = inr (inr refl)

-- The interface `MailSender`, as a value of it behaves during one call.
pub record MailSender : Type 0 where
  pub name : Text
  pub send_mail : MailJob → Outcome

pub record MailRouter : Type 0 where
  pub graph_service : Option MailSender
  pub sendgrid_service : Option MailSender
  pub org_domain : Text

module _ (unicode_lower : Text → Text) where
  -- Whether an address ends in a domain, in any case: the test that the handlers repeat inline.
  unfoldable pub in_domain : Text → Text → Bool
  in_domain address domain =
      has_suffix (to_lower unicode_lower address) (to_lower unicode_lower domain)

  unfoldable pub new_mail_router : Config → Option MailSender → Option MailSender → MailRouter
  new_mail_router cfg graph_service sendgrid_service = record {
    graph_service = graph_service;
    sendgrid_service = sendgrid_service;
    org_domain = to_lower unicode_lower cfg.org_email_domain;
  }

  unfoldable pub route : MailRouter → MailJob → Option MailSender
  route r job =
      if has_suffix (to_lower unicode_lower job.from_address) r.org_domain
      then r.graph_service
      else r.sendgrid_service

  unfoldable pub send_mail : MailRouter → MailJob → Outcome
  unfolding route
  send_mail r job = elim (route r job) [ none ↦ panicked | some sender ↦ sender.send_mail job ]

-- `none` is nil.
unfoldable pub validate_configuration : MailRouter → Option Text
validate_configuration r =
    if is_none r.graph_service
    then some (text "Graph API service is not configured")
    else if is_none r.sendgrid_service
    then some (text "SendGrid service is not configured")
    else if is_empty r.org_domain
    then some (text "organization email domain is not configured")
    else none
