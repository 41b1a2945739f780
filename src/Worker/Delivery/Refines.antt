-- ===== src/Worker/Delivery/Refines.antt =====
-- The rounds of a mail leave in its row what the specification says.
use mathlib.Core.Option
use email_proxy.Prelude.{
  ℕ, zero, suc, ◌+◌, ◌≡◌, ◌≢◌, refl, ◌∙◌, ap, inl, inr, some, arith, Bool-cases, leb, leb→le,
}
use email_proxy.Prelude.Results.{ok}
use email_proxy.Text.{Text}
use email_proxy.Models.{Mail, cancelled, MailJob}
use email_proxy.Services.{Env, World, IsReliable}
use email_proxy.Router.{Outcome, Outcome-cases}
use email_proxy.Worker.{mark_processing, attempt}
use email_proxy.Worker.Outcomes.{
  handle_message_sent, handle_message_failed, handle_message_rescheduled,
}
use email_proxy.Worker.Views.{row_of}
use email_proxy.Worker.Delivery.{Round, rounds}
use email_proxy.Worker.Delivery.Spec.{delivered}
use email_proxy.Worker.Delivery.Rounds.{
  row_is_live, handle_message_panicked, counted, row_of-republish, rounds_end, rounds_go_on,
}

module _ (e : Env) (r : IsReliable e.services) (job : MailJob) (round : ℕ → Round e)
    (kept : (k : ℕ) (w : World e.services)
      → row_of e job.mail_id ((round k).others w) ≡ row_of e job.mail_id w)
    (round_trip : (n : ℕ)
      → e.platform.unmarshal_job (e.platform.marshal_job (counted job n))
        ≡ ok (counted job n)) where
  -- With services that do not fail, if no other part writes the row of the mail, each outcome depends
  -- on its round alone, and the retried job is read back from its JSON, then the rounds of a live
  -- mail leave in its row what the specification says of these outcomes, and they run out of fuel
  -- together.
  pub rounds-delivered :
      (outcome : ℕ → Outcome)
      → ((k n : ℕ) (v : World e.services)
          → attempt e (round k).mailer v (counted job n) ≡ outcome k)
      → (fuel k n : ℕ) (body : Text) (w : World e.services) (mail : Mail)
      → e.platform.unmarshal_job body ≡ ok (counted job n)
      → row_of e job.mail_id w ≡ some mail
      → mail.status ≢ cancelled
      → Option.map (row_of e job.mail_id) (rounds e round fuel k body w)
        ≡ Option.map some (
            delivered e.config.max_retry_count outcome (λ i. (round i).ended.instant) fuel k n mail)
  unfolding rounds delivered
  rounds-delivered outcome trace zero k n body w mail decoded stored live = refl
  rounds-delivered outcome trace (suc fuel) k n body w mail decoded stored live =
      let clear = row_is_live e r job.mail_id w mail stored live in
      let tried = trace k n (mark_processing e (round k).started (counted job n) w) in
      let limit = e.config.max_retry_count in
      elim (Outcome-cases (outcome k)) [
        | inl good ↦
            let h =
              handle_message_sent e r (round k).started (round k).ended (round k).mailer body w
                (counted job n) mail decoded stored clear (tried ∙ good) in
            rw (rounds_end e round fuel k body w h.1, good, delivered) (ap some h.2)
        | inr (inr broken) ↦
            let h =
              handle_message_panicked e r (round k).started (round k).ended (round k).mailer body w
                (counted job n) mail decoded stored clear (tried ∙ broken) in
            rw (rounds_end e round fuel k body w h.0, broken, delivered) (ap some h.1)
        | inr (inl (cause, bad)) ↦ elim (Bool-cases (leb limit (n + 1))) [
          | inl last ↦
              let h =
                handle_message_failed e r (round k).started (round k).ended (round k).mailer body w
                  (counted job n) mail decoded stored clear cause (tried ∙ bad) (leb→le _ _ last) in
              rw (rounds_end e round fuel k body w h.1, bad, delivered, last) (ap some h.2)
          | inr more ↦
              let h =
                handle_message_rescheduled e r (round k).started (round k).ended (round k).mailer
                  body w (counted job n) mail decoded stored clear cause (tried ∙ bad)
                  (ground arith) in
              rw (rounds_go_on e round fuel k body w _ h.1, bad, delivered, more)
                (rounds-delivered outcome trace fuel (k + 1) (n + 1) _ _ _ (round_trip (n + 1))
                  (row_of-republish e round job.mail_id kept k _ _ ∙ h.2)
                  (λ gone. absurd (ground arith)))
        ]
      ]
