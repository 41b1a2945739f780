-- ===== src/Router/Laws.antt =====
-- Which service a mail goes through.
use email_proxy.Prelude.{
  ◌≡◌, ◌≢◌, ◌++◌, ◌↔◌, Option, none, some, arith, Bool-cases, inl, inr, true, false,
}
use email_proxy.Text.{Text, to_lower}
use email_proxy.Text.Laws.{has_suffix_sound, has_suffix-append}
use email_proxy.Models.{MailJob}
use email_proxy.Config.{Config}
use email_proxy.Router.{
  panicked, MailSender, MailRouter, in_domain, new_mail_router, route, send_mail,
  validate_configuration,
}

-- The address ends in the domain, in any case.
abbrev pub IsWithin : (Text → Text) → Text → Text → Type 0
IsWithin u domain address = (local : Text) × (to_lower u address ≡ local ++ to_lower u domain)

-- The test that the handlers repeat inline decides exactly whether an address ends in a domain.
pub in_domain_iff :
    (u : Text → Text) (address domain : Text)
    → (in_domain u address domain ≡ true) ↔ IsWithin u domain address
unfolding in_domain
in_domain_iff u address domain =
    (has_suffix_sound _ _, λ h. rw h.1 (has_suffix-append h.0 (to_lower u domain)))

module _ (u : Text → Text) (cfg : Config) (graph sendgrid : Option MailSender) (job : MailJob) where
  route_internal :
      in_domain u job.from_address cfg.org_email_domain ≡ true
      → route u (new_mail_router u cfg graph sendgrid) job ≡ graph
  unfolding route new_mail_router in_domain
  route_internal h = rw h

  route_external :
      in_domain u job.from_address cfg.org_email_domain ≡ false
      → route u (new_mail_router u cfg graph sendgrid) job ≡ sendgrid
  unfolding route new_mail_router in_domain
  route_external h = rw h

  -- A router built from the settings picks the Graph service for a sender whose lowered address
  -- ends in the lowered domain, and the SendGrid service for every other sender.
  pub route_lem :
      (IsWithin u cfg.org_email_domain job.from_address
        → route u (new_mail_router u cfg graph sendgrid) job ≡ graph)
      × (¬ IsWithin u cfg.org_email_domain job.from_address
          → route u (new_mail_router u cfg graph sendgrid) job ≡ sendgrid)
  route_lem =
      let test = in_domain_iff u job.from_address cfg.org_email_domain in
      (
        λ h. route_internal (test.1 h),
        λ h. elim (Bool-cases (in_domain u job.from_address cfg.org_email_domain)) [
          | inl inside ↦ absurd (h (test.0 inside))
          | inr outside ↦ route_external outside
        ],
      )

-- A router that passes its own validation does not panic on any job, as long as its two services
-- do not panic on that job.
pub send_mail-ne-panicked :
    (u : Text → Text) (r : MailRouter) (job : MailJob)
    → validate_configuration r ≡ none
    → ((s : MailSender) → r.graph_service ≡ some s → s.send_mail job ≢ panicked)
    → ((s : MailSender) → r.sendgrid_service ≡ some s → s.send_mail job ≢ panicked)
    → send_mail u r job ≢ panicked
unfolding validate_configuration send_mail
send_mail-ne-panicked u r job h k l = grind arith
