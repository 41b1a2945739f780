-- ===== src/Api/Mails/Choices.antt =====
-- Which sender configuration a mail uses.
use email_proxy.Prelude.{
  ◌≡◌, ◌≢◌, sym, ap, ◌∙◌, ◌⊎◌, inl, inr, true, Option, none, some, arith, Bool-cases, Option-cases,
}
use email_proxy.Prelude.Results.{ok, Result-cases}
use email_proxy.Text.{Text, to_lower}
use email_proxy.Models.{EmailSenderConfig}
use email_proxy.Services.{Env, World}
use email_proxy.Encryption.{EncryptionService}
use email_proxy.SenderConfig.{get_by_sender_email}
use email_proxy.Router.{in_domain}
use email_proxy.Router.Laws.{IsWithin, in_domain_iff}
use email_proxy.Api.{Claim, text_claim, list_claim, other_claim, Context, mail_queued}
use email_proxy.Api.Mails.{as_text, chosen, answered, find_stored_config, find_sender_config}

pub as_text_sound : (o : Option Claim) (t : Text) → as_text o ≡ some t → o ≡ some (text_claim t)
as_text_sound none t h = cc
as_text_sound (some (text_claim u)) t h = ground arith
as_text_sound (some (list_claim list)) t h = cc
as_text_sound (some other_claim) t h = cc

module _ (e : Env) where
  -- The configuration is an active one that this client stored for this address in any case.
  abbrev pub IsOwn : Context → Text → Text → EmailSenderConfig → Type 0
  IsOwn c from token own =
      (c.client_token_id ≡ some (text_claim token))
      × (e.platform.parse_uuid token ≡ ok own.client_token_id)
      × (own.sender_email ≡ to_lower e.platform.unicode_lower from)
      × (own.is_active ≡ true)

  find_stored_config_sound :
      (c : Context) (from : Text) (w : World e.services) (config : Option Text)
      → find_stored_config e c from w ≡ chosen config
      → (own : EmailSenderConfig) × (token : Text) × (config ≡ some own.id) × IsOwn c from token own
  unfolding find_stored_config get_by_sender_email
  find_stored_config_sound c from w config h = elim (Option-cases (as_text c.client_token_id)) [
    | inl missing ↦ absurd (ground arith)
    | inr (token, is) ↦ elim (Result-cases (e.platform.parse_uuid token)) [
      | inr (cause, bad) ↦ absurd (ground arith)
      | inl (id, parsed) ↦
          let lowered = to_lower e.platform.unicode_lower from in
          elim (Result-cases (e.services.first_sender id lowered w.db)) [
            | inr (cause, unknown) ↦ absurd (ground arith)
            | inl (own, found) ↦
                let (owner, sender, active) =
                  e.services.first_sender-active id lowered w.db own found in
                (
                  own,
                  token,
                  ground arith,
                  (
                    as_text_sound c.client_token_id token is,
                    parsed ∙ ap ok (sym owner),
                    sender,
                    active,
                  ),
                )
          ]
    ]
  ]

  -- A sender outside the organization uses no configuration; one inside uses an active
  -- configuration that the client whose token authorized the request stored for this address.
  pub find_sender_config_lem :
      (service : Option EncryptionService) (c : Context) (from : Text) (w : World e.services)
      (config : Option Text)
      → find_sender_config e service c from w ≡ chosen config
      → ((config ≡ none) × ¬ IsWithin e.platform.unicode_lower e.config.org_email_domain from)
        ⊎ (IsWithin e.platform.unicode_lower e.config.org_email_domain from
            × (own : EmailSenderConfig) × (token : Text) × (config ≡ some own.id)
            × IsOwn c from token own)
  unfolding find_sender_config
  find_sender_config_lem service c from w config h =
      let test = in_domain_iff e.platform.unicode_lower from e.config.org_email_domain in
      elim (Bool-cases (in_domain e.platform.unicode_lower from e.config.org_email_domain)) [
        | inr outside ↦ inl (ground arith, λ within. let inside = test.1 within in cc)
        | inl inside ↦
            let (own, token, is, owned) = find_stored_config_sound c from w config (ground arith) in
            inr (test.0 inside, own, token, is, owned)
      ]

  stored_config_answers_no_mail :
      (c : Context) (from : Text) (w : World e.services) (id : Text)
      → find_stored_config e c from w ≢ answered (mail_queued id)
  unfolding find_stored_config
  stored_config_answers_no_mail c from w id h = elim (Option-cases (as_text c.client_token_id)) [
    | inl missing ↦ absurd (ground arith)
    | inr (token, is) ↦ elim (Result-cases (e.platform.parse_uuid token)) [
      | inr (cause, bad) ↦ absurd (ground arith)
      | inl (user, parsed) ↦ elim (Result-cases (get_by_sender_email e user from w)) [
        | inr (cause, unknown) ↦ absurd (ground arith)
        | inl (own, found) ↦ absurd (ground arith)
      ]
    ]
  ]

  pub answers_no_mail :
      (service : Option EncryptionService) (c : Context) (from : Text) (w : World e.services)
      (id : Text)
      → find_sender_config e service c from w ≢ answered (mail_queued id)
  unfolding find_sender_config
  answers_no_mail service c from w id h = ground (arith, stored_config_answers_no_mail c from w id)
