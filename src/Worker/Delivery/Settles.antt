-- ===== src/Worker/Delivery/Settles.antt =====
-- The rounds of a mail come to an end.
use email_proxy.Prelude.{
  ℕ, zero, suc, ◌+◌, ◌≤◌, ◌<◌, ◌≡◌, ◌≢◌, ◌⊎◌, refl, ◌∙◌, inl, inr, some, arith, Bool-cases, leb,
  leb→le,
}
use email_proxy.Prelude.Results.{ok}
use email_proxy.Text.{Text}
use email_proxy.Models.{Mail, processing, cancelled, MailJob}
use email_proxy.Services.{Env, World, IsReliable}
use email_proxy.Router.{Outcome-cases, panicked}
use email_proxy.Worker.{mark_processing, attempt}
use email_proxy.Worker.Outcomes.{
  handle_message_sent, handle_message_failed, handle_message_rescheduled,
}
use email_proxy.Worker.Views.{row_of}
use email_proxy.Worker.Delivery.{Round, rounds, IsSettled}
use email_proxy.Worker.Delivery.Rounds.{
  row_is_live, counted, row_of-republish, rounds_end, rounds_go_on,
}

module _ (e : Env) (r : IsReliable e.services) (job : MailJob) (round : ℕ → Round e)
    (kept : (k : ℕ) (w : World e.services)
      → row_of e job.mail_id ((round k).others w) ≡ row_of e job.mail_id w)
    (round_trip : (n : ℕ)
      → e.platform.unmarshal_job (e.platform.marshal_job (counted job n))
        ≡ ok (counted job n)) where
  abbrev Settles : ℕ → ℕ → Text → World e.services → Type 0
  Settles fuel k body w =
      (w' : World e.services) × ((rounds e round fuel k body w ≡ some w')
        × IsSettled e job.mail_id w')

  module _
      (calm : (k n : ℕ) (v : World e.services)
        → attempt e (round k).mailer v (counted job n) ≢ panicked) where
    -- One round settles the mail, or the next one begins with a count below the limit.
    one_round :
        (rest k n : ℕ) (body : Text) (w : World e.services) (mail : Mail)
        → e.platform.unmarshal_job body ≡ ok (counted job n)
        → row_of e job.mail_id w ≡ some mail
        → mail.status ≢ cancelled
        → Settles (suc rest) k body w
          ⊎ ((n + 1 < e.config.max_retry_count)
              × ((w' : World e.services) × ((row_of e job.mail_id w'
                      ≡ some (record mail { status = processing; retry_count = n + 1 }))
                    × (rounds e round (suc rest) k body w
                        ≡ rounds e round rest
                            (k + 1)
                            (e.platform.marshal_job (counted job (n + 1)))
                            w'))))
    unfolding IsSettled
    one_round rest k n body w mail decoded stored live =
        let clear = row_is_live e r job.mail_id w mail stored live in
        let w_1 = mark_processing e (round k).started (counted job n) w in
        elim (Outcome-cases (attempt e (round k).mailer w_1 (counted job n))) [
          | inl good ↦
              let h =
                handle_message_sent e r (round k).started (round k).ended (round k).mailer body w
                  (counted job n) mail decoded stored clear good in
              inl (_, (rounds_end e round rest k body w h.1, (_, (h.2, inl refl))))
          | inr (inr broken) ↦ absurd (calm k n w_1 broken)
          | inr (inl (cause, bad)) ↦ elim (Bool-cases (leb e.config.max_retry_count (n + 1))) [
            | inl last ↦
                let h =
                  handle_message_failed e r (round k).started (round k).ended (round k).mailer body
                    w (counted job n) mail decoded stored clear cause bad (leb→le _ _ last) in
                inl (_, (rounds_end e round rest k body w h.1, (_, (h.2, inr refl))))
            | inr more ↦
                let few : n + 1 < e.config.max_retry_count = ground arith in
                let h =
                  handle_message_rescheduled e r (round k).started (round k).ended (round k).mailer
                    body w (counted job n) mail decoded stored clear cause bad few in
                let row = row_of-republish e round job.mail_id kept k _ _ ∙ h.2 in
                inr (few, (_, (row, rounds_go_on e round rest k body w _ h.1)))
          ]
        ]

    -- With services that do not fail, if no attempt panics, no other part writes the row of the mail,
    -- and the retried job is read back from its JSON, then a live mail of which `n` attempts have
    -- counted is settled after as many rounds as MAX_RETRY_COUNT leaves it, or one if it leaves none:
    -- the handlers end, and the row says sent or failed.
    pub rounds_settle :
        (rest k n : ℕ) (body : Text) (w : World e.services) (mail : Mail)
        → e.config.max_retry_count ≤ n + suc rest
        → e.platform.unmarshal_job body ≡ ok (counted job n)
        → row_of e job.mail_id w ≡ some mail
        → mail.status ≢ cancelled
        → (w' : World e.services) × ((rounds e round (suc rest) k body w ≡ some w')
            × IsSettled e job.mail_id w')
    rounds_settle zero k n body w mail enough decoded stored live =
        elim (one_round zero k n body w mail decoded stored live) [
          | inl settles ↦ settles
          | inr more ↦ absurd (ground arith)
        ]
    rounds_settle (suc rest) k n body w mail enough decoded stored live =
        elim (one_round (suc rest) k n body w mail decoded stored live) [
          | inl settles ↦ settles
          | inr (few, (w_2, (row, same))) ↦
              let (w', (ran, settled)) =
                rounds_settle rest (k + 1) (n + 1) _ w_2 _ (omega arith) (round_trip (n + 1)) row
                  (λ gone. absurd (ground arith)) in
              (w', (same ∙ ran, settled))
        ]
