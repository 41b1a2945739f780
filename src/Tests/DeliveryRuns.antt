-- ===== src/Tests/DeliveryRuns.antt =====
-- A mail that is refused once and accepted then.
use mathlib.Core.Option
use email_proxy.Prelude.{ℕ, zero, suc, ◌≡◌, refl, ◌≢◌, [], ◌∷◌, some, arith}
use email_proxy.Text.{text, text_eq, to_lower, has_suffix}
use email_proxy.Models.{sent, MailJob}
use email_proxy.Services.{World}
use email_proxy.Router.{Outcome, accepted, refused, panicked, send_mail, route}
use email_proxy.Worker.{attempt}
use email_proxy.Worker.Views.{row_of}
use email_proxy.Worker.Delivery.{Round, rounds, IsSettled}
use email_proxy.Worker.Delivery.Spec.{delivered}
use email_proxy.Worker.Delivery.Refines.{rounds-delivered}
use email_proxy.Worker.Delivery.Settles.{rounds_settle}
use email_proxy.Tests.Fixture.{
  env, services, services_reliable, one_mail, sample_mail, blank_job, noon, later, mailer,
}

abbrev job : MailJob
job = record blank_job { mail_id = text "a1" }

abbrev job_at : ℕ → MailJob
job_at n = record job { retry_count = n }

abbrev outcome_of : ℕ → Outcome
outcome_of zero = refused (text "no")
outcome_of (suc k) = accepted

-- The other parts empty the queues.
abbrev round : ℕ → Round env
round k = record {
  started = noon;
  ended = later;
  mailer = mailer (outcome_of k);
  others = λ w. record w { broker = λ q. [] };
}

outcome_is :
    (k n : ℕ) (v : World services) → attempt env (round k).mailer v (job_at n) ≡ outcome_of k
unfolding attempt send_mail route to_lower has_suffix
outcome_is k n v = refl

stored : row_of env (text "a1") one_mail ≡ some sample_mail
unfolding text_eq
stored = refl

rounds-delivered_example :
    Option.map (row_of env (text "a1")) (rounds env round 2 0 (0 ∷ text "a1") one_mail)
    ≡ Option.map some (delivered 5 outcome_of (λ i. 721) 2 0 0 sample_mail)
rounds-delivered_example =
    rounds-delivered env services_reliable job round (λ k w. refl) (λ n. refl) outcome_of outcome_is
      2 0 0 (0 ∷ text "a1") one_mail sample_mail refl stored (λ gone. absurd (ground arith))

delivered_twice :
    delivered 5 outcome_of (λ i. 721) 2 0 0 sample_mail
    ≡ some (record sample_mail { status = sent; retry_count = 1; sent_at = some 721 })
unfolding delivered
delivered_twice = refl

calm : (k n : ℕ) (v : World services) → attempt env (round k).mailer v (job_at n) ≢ panicked
calm zero n v h = absurd (ground (arith, outcome_is zero n v))
calm (suc k) n v h = absurd (ground (arith, outcome_is (suc k) n v))

rounds_settle_example :
    (w : World services) × ((rounds env round 5 0 (0 ∷ text "a1") one_mail ≡ some w)
      × IsSettled env (text "a1") w)
rounds_settle_example =
    rounds_settle env services_reliable job round (λ k w. refl) (λ n. refl) calm 4 0 0
      (0 ∷ text "a1") one_mail sample_mail (omega arith) refl stored (λ gone. absurd (ground arith))
