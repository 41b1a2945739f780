-- ===== src/Tests/ShutdownRuns.antt =====
-- GracefulShutdown while a job is in flight.
use email_proxy.Prelude.{ℕ, zero, suc, ◌+◌, ◌≤◌, ◌≡◌, refl, [], true, some, arith}
use mathlib.Core.Path.{subst}
use email_proxy.Text.{text, to_lower, has_suffix}
use email_proxy.Router.{accepted, send_mail, route}
use email_proxy.Worker.{attempt}
use email_proxy.Worker.System.{System, Reach, here, next, after_complete, finish, shut_down}
use email_proxy.Worker.System.Limits.{count}
use email_proxy.Worker.System.Closing.{Event, tick, timeout, idle, wait}
use email_proxy.Worker.System.Drains.{held, received, shut_down_drains}
use email_proxy.Tests.Fixture.{env, later, mailer}
use email_proxy.Tests.WorkerRuns.{job_at}
use email_proxy.Tests.SystemRuns
use email_proxy.Tests.SystemRuns.{one_submitted_reached, one_begun, first_step, second_step}

abbrev closing : System env
closing = record one_begun { is_shutdown = true }

closing_reached : Reach env SystemRuns.idle closing
closing_reached = next (next (next one_submitted_reached first_step) second_step) shut_down

abbrev closed : System env
closed = after_complete env closing later (mailer accepted) [] (job_at 0)

closed_reached : Reach env closing closed
unfolding attempt send_mail route to_lower has_suffix
closed_reached = next here (finish later (mailer accepted) [] [] (job_at 0) refl (λ h. cc))

-- A tick during the attempt, one after it, and the timeout.
abbrev events : ℕ → Event env
events zero = tick closing
events (suc zero) = tick closed
events (suc (suc k)) = timeout

tick_of : (s t : System env) → tick s ≡ tick t → s ≡ t
tick_of s t h = ground arith

all_reached : (k : ℕ) (t : System env) → events k ≡ tick t → Reach env closing t
all_reached zero t h = subst (Reach env closing) (tick_of closing t h) here
all_reached (suc zero) t h = subst (Reach env closing) (tick_of closed t h) closed_reached
all_reached (suc (suc k)) t h = absurd (ground arith)

ends_idle : wait env events 3 0 ≡ some (idle, 1)
unfolding wait
ends_idle = refl

shut_down_drains_example :
    (t : System env) × (events 1 ≡ tick t)
    × (t.in_flight ≡ [])
    × (count (text "a1") closing.attempted + held env (text "a1") closing
        ≤ count (text "a1") t.attempted)
    × (count (text "a1") t.attempted
        ≤ count (text "a1") closing.attempted
          + held env (text "a1") closing
          + received env (text "a1") closing)
shut_down_drains_example =
    shut_down_drains env SystemRuns.idle closing (text "a1") refl refl closing_reached refl events
      all_reached 3 1 ends_idle
