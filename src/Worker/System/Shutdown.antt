-- ===== src/Worker/System/Shutdown.antt =====
-- The count of active jobs, which GracefulShutdown waits for.
use email_proxy.Prelude.{◌≡◌, refl, ap, List, [], ◌∷◌, arith, length, length_of_split}
use email_proxy.Models.{MailJob}
use email_proxy.Services.{Env}
use email_proxy.Worker.System.{
  System, Step, submit, take, receive, discard, finish, wake, elsewhere, shut_down, Reach, here,
  next,
}

pub nil_of_length : (jobs : List MailJob) → length jobs ≡ 0 → jobs ≡ []
nil_of_length [] h = refl
nil_of_length (job ∷ jobs) h = absurd (omega arith)

module _ (e : Env) where
  abbrev pub Counts : System e → Type 0
  Counts s = s.active_jobs ≡ length s.in_flight

  Step-Counts : {s t : System e} → Step e s t → Counts s → Counts t
  Step-Counts (submit job fresh) h = h
  Step-Counts (take body broker running first others) h = h
  Step-Counts (receive now before after body job w held begun) h = omega arith
  Step-Counts (discard now before after body settlement held begun) h = h
  Step-Counts (finish now m before after job held sane) h =
      omega (arith, length_of_split before after job _ held)
  Step-Counts (wake before after d held) h = h
  Step-Counts (elsewhere db cache) h = h
  Step-Counts shut_down h = h

  pub Reach-Counts : {s t : System e} → Reach e s t → Counts s → Counts t
  Reach-Counts here h = h
  Reach-Counts (next r st) h = Step-Counts st (Reach-Counts r h)

  -- In every state that is reached from a worker without jobs, an active count of 0, which ends the
  -- wait of GracefulShutdown, means that no attempt is being made.
  pub idle_has_no_jobs :
      (s t : System e)
      → s.active_jobs ≡ 0
      → s.in_flight ≡ []
      → Reach e s t
      → t.active_jobs ≡ 0
      → t.in_flight ≡ []
  idle_has_no_jobs s t none_active none_held r idle =
      let start : Counts s = omega (arith, ap length none_held) in
      nil_of_length t.in_flight (omega (arith, Reach-Counts r start))
