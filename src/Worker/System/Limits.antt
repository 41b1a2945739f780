-- ===== src/Worker/System/Limits.antt =====
-- How often a mail is attempted and delivered, over every interleaving.
use Prim.Native.Nat.{max}
use email_proxy.Prelude.{
  ℕ, ◌+◌, ◌-◌, ◌*◌, ◌≤◌, ◌≡◌, refl, ap, List, [], ◌∷◌, ◌++◌, arith, sum_of, sum_of-append,
  if◌then◌else◌, inl, inr, Bool-cases,
}
use email_proxy.Text.{Text, text_eq}
use email_proxy.Models.{MailJob}
use email_proxy.Services.{Env, World}
use email_proxy.Router.{Outcome-cases}
use email_proxy.Worker.{Moment, Mailer, attempt, complete}
use email_proxy.Worker.System.{
  System, pending, as_list, note_delivery, Step, submit, take, receive, discard, finish, wake,
  elsewhere, shut_down, Reach, here, next,
}
use email_proxy.Worker.System.Totals.{
  IsSound, of_job, of_delayed, of_pending, total, of_delayed-handle_retry,
}
use email_proxy.Worker.System.Moves.{
  total-submit, total-take, total-receive, total-discard, total-finish, total-wake, total-elsewhere,
  total-shut_down,
}

-- How often a mail stands in a history.
abbrev pub count : Text → List Text → ℕ
count id = sum_of (λ other. if text_eq id other then 1 else 0)

pub count-append : (id : Text) (xs ys : List Text) → count id (xs ++ ys) ≡ count id xs + count id ys
count-append id xs ys = sum_of-append (λ other. if text_eq id other then 1 else 0) xs ys

-- A job of mail `id` weighs the attempts that it has left; one attempt is always made.
abbrev pub attempts_left : ℕ → Text → Text → ℕ → ℕ
attempts_left limit id other n = if text_eq id other then max 1 (limit - n) else 0

-- A job of mail `id` weighs the delivery that it may lead to.
abbrev pub deliveries_left : Text → Text → ℕ → ℕ
deliveries_left id other n = if text_eq id other then 1 else 0

module _ (e : Env) (sound : IsSound e) (id : Text) where
  abbrev pub limit : ℕ
  limit = e.config.max_retry_count

  -- What a retry weighs is less than what its job weighed, by the attempt that was made.
  retry_costs :
      (now : Moment) (m : Mailer) (job : MailJob) (w : World e.services)
      → sum_of (of_delayed e (attempts_left limit id)) (as_list (complete e now m job w).delayed)
          + count id (job.mail_id ∷ [])
        ≤ of_job e (attempts_left limit id) job
  unfolding complete
  retry_costs now m job w = elim (Outcome-cases (attempt e m w job)) [
    | inl done ↦ rw (done, complete) (ground arith)
    | inr (inl (cause, bad)) ↦
        rw (bad, complete)
          (ground (arith, of_delayed-handle_retry e (attempts_left limit id) sound now job cause w))
    | inr (inr broken) ↦ rw (broken, complete) (ground arith)
  ]

  delivery_costs :
      (now : Moment) (m : Mailer) (job : MailJob) (w : World e.services) (delivered : List Text)
      → sum_of (of_delayed e (deliveries_left id)) (as_list (complete e now m job w).delayed)
          + count id (note_delivery (attempt e m w job) job.mail_id delivered)
        ≤ of_job e (deliveries_left id) job + count id delivered
  unfolding complete
  delivery_costs now m job w delivered = elim (Outcome-cases (attempt e m w job)) [
    | inl done ↦ rw (done, complete) (ground arith)
    | inr (inl (cause, bad)) ↦
        rw (bad, complete)
          (ground (arith, of_delayed-handle_retry e (deliveries_left id) sound now job cause w))
    | inr (inr broken) ↦ rw (broken, complete) (ground arith)
  ]

  -- A new job weighs the attempts that a submission allows.
  new_job_weighs :
      (job : MailJob)
      → job.retry_count ≡ 0
      → of_job e (attempts_left limit id) job ≤ max 1 limit * count id (job.mail_id ∷ [])
  new_job_weighs job fresh = elim (Bool-cases (text_eq id job.mail_id)) [
    | inl same ↦ rw (same, fresh) (omega arith)
    | inr other ↦ rw other (omega arith)
  ]

  -- The bounds, with a number of attempts and deliveries that are granted beyond them.
  abbrev pub IsWithinAttempts : ℕ → System e → Type 0
  IsWithinAttempts granted s =
      count id s.attempted + total e (attempts_left limit id) s
      ≤ max 1 limit * count id s.submitted + granted

  pub Step-IsWithinAttempts :
      (granted : ℕ) {s t : System e}
      → Step e s t
      → IsWithinAttempts granted s
      → IsWithinAttempts granted t
  Step-IsWithinAttempts granted {s} (submit job fresh) h =
      omega (arith, total-submit e (attempts_left limit id) sound s job, new_job_weighs job fresh)
  Step-IsWithinAttempts granted {s} (take body broker running first others) h =
      omega (arith, total-take e (attempts_left limit id) sound s body broker first)
  Step-IsWithinAttempts granted {s} (receive now before after body job w held begun) h = omega (
    arith,
    total-receive e (attempts_left limit id) sound s now before after body job w held begun,
  )
  Step-IsWithinAttempts granted {s} (discard now before after body settlement held begun) h =
      omega (arith, total-discard e (attempts_left limit id) sound s before after body held)
  Step-IsWithinAttempts granted {s} (finish now m before after job held sane) h = omega (
    arith,
    total-finish e (attempts_left limit id) sound s now m before after job held,
    retry_costs now m job s.world,
  )
  Step-IsWithinAttempts granted {s} (wake before after d held) h =
      omega (arith, total-wake e (attempts_left limit id) sound s before after d held)
  Step-IsWithinAttempts granted {s} (elsewhere db cache) h =
      omega (arith, total-elsewhere e (attempts_left limit id) sound s db cache)
  Step-IsWithinAttempts granted {s} shut_down h =
      omega (arith, total-shut_down e (attempts_left limit id) sound s)

  abbrev pub IsWithinDeliveries : ℕ → System e → Type 0
  IsWithinDeliveries granted s =
      count id s.delivered + total e (deliveries_left id) s ≤ count id s.submitted + granted

  pub Step-IsWithinDeliveries :
      (granted : ℕ) {s t : System e}
      → Step e s t
      → IsWithinDeliveries granted s
      → IsWithinDeliveries granted t
  Step-IsWithinDeliveries granted {s} (submit job fresh) h =
      omega (arith, total-submit e (deliveries_left id) sound s job)
  Step-IsWithinDeliveries granted {s} (take body broker running first others) h =
      omega (arith, total-take e (deliveries_left id) sound s body broker first)
  Step-IsWithinDeliveries granted {s} (receive now before after body job w held begun) h =
      omega
        (arith, total-receive e (deliveries_left id) sound s now before after body job w held begun)
  Step-IsWithinDeliveries granted {s} (discard now before after body settlement held begun) h =
      omega (arith, total-discard e (deliveries_left id) sound s before after body held)
  Step-IsWithinDeliveries granted {s} (finish now m before after job held sane) h = omega (
    arith,
    total-finish e (deliveries_left id) sound s now m before after job held,
    delivery_costs now m job s.world s.delivered,
  )
  Step-IsWithinDeliveries granted {s} (wake before after d held) h =
      omega (arith, total-wake e (deliveries_left id) sound s before after d held)
  Step-IsWithinDeliveries granted {s} (elsewhere db cache) h =
      omega (arith, total-elsewhere e (deliveries_left id) sound s db cache)
  Step-IsWithinDeliveries granted {s} shut_down h =
      omega (arith, total-shut_down e (deliveries_left id) sound s)

  Reach-keeps :
      {s t : System e}
      → Reach e s t
      → IsWithinAttempts 0 s × IsWithinDeliveries 0 s
      → IsWithinAttempts 0 t × IsWithinDeliveries 0 t
  Reach-keeps here h = h
  Reach-keeps (next r st) h =
      let (attempts, deliveries) = Reach-keeps r h in
      (Step-IsWithinAttempts 0 st attempts, Step-IsWithinDeliveries 0 st deliveries)

-- A worker that has not begun: no job is anywhere and nothing has happened.
pub record IsFresh (e : Env) (s : System e) : Type 0 where
  pub none_pending : pending e s.world ≡ []
  pub none_taken : s.taken ≡ []
  pub none_in_flight : s.in_flight ≡ []
  pub none_sleeping : s.sleeping ≡ []
  pub none_submitted : s.submitted ≡ []
  pub none_attempted : s.attempted ≡ []
  pub none_delivered : s.delivered ≡ []

total_of_IsFresh : (e : Env) (f : Text → ℕ → ℕ) (s : System e) → IsFresh e s → total e f s ≡ 0
unfolding total of_pending
total_of_IsFresh e f s h = rw (h.none_pending, h.none_taken, h.none_in_flight, h.none_sleeping) refl

-- A fresh worker is within the bounds.
pub IsFresh-within :
    (e : Env) (sound : IsSound e) (id : Text) (s : System e)
    → IsFresh e s
    → IsWithinAttempts e sound id 0 s × IsWithinDeliveries e sound id 0 s
IsFresh-within e sound id s fresh = (
  omega (
    arith,
    ap (count id) fresh.none_attempted,
    total_of_IsFresh e (attempts_left e.config.max_retry_count id) s fresh,
  ),
  omega
      (arith, ap (count id) fresh.none_delivered, total_of_IsFresh e (deliveries_left id) s fresh),
)

-- Whatever any number of handlers, sleeping retries and other parts of the program do, and in
-- whatever order, a mail that was submitted once is attempted at most MAX_RETRY_COUNT times (once,
-- if that is 0) and is accepted by a service at most once; a mail that was submitted n times, n
-- times as often.
pub Reach-limits :
    (e : Env) (s t : System e) (id : Text)
    → IsSound e
    → IsFresh e s
    → Reach e s t
    → (count id t.attempted ≤ max 1 e.config.max_retry_count * count id t.submitted)
      × (count id t.delivered ≤ count id t.submitted)
Reach-limits e s t id sound fresh r =
    let (attempts, deliveries) = Reach-keeps e sound id r (IsFresh-within e sound id s fresh) in
    (omega arith, omega arith)
