-- ===== src/Tests/SystemRuns.antt =====
-- The worker and its goroutines on concrete schedules.
use email_proxy.Prelude.{
  zero, suc, ℕ, ◌+◌, ◌*◌, ◌≤◌, ◌≡◌, refl, [], ◌∷◌, false, some, arith, ◌≢◌, ◌++◌, List,
  if◌then◌else◌,
}
use Prim.Native.Nat.{max}
use email_proxy.Text.{Text, text, text_eq, to_lower, has_suffix}
use email_proxy.Router.{accepted, send_mail, route}
use email_proxy.Worker.{
  is_cancelled, mark_processing, attempt, begin, complete, mark_sent, update_row, note_status,
}
use mathlib.Core.Path.{subst}
use email_proxy.Worker.System.{
  System, Reach, here, next, submit, finish, after_submit, after_complete, Step, take, receive,
  after_take, after_begin,
}
use email_proxy.Worker.System.Totals.{IsSound}
use email_proxy.Worker.System.Limits.{IsFresh, count}
use email_proxy.Worker.System.Closing.{Event, tick, timeout, Finish, wait, IsOver, wait_ends}
use email_proxy.Tests.Fixture.{env, services_reliable, one_mail, noon, later, mailer}
use email_proxy.Text.Laws.{text_eq_iff}
use email_proxy.Queue.{publish, publish_mail}
use email_proxy.Keydb.{set_status}
use email_proxy.Worker.System.Keeps.{IsReadable, failed_count}
use email_proxy.Worker.System.Losses.{discarded, forgotten, IsIdle, nothing_lost}
use email_proxy.Worker.System.Crashes.{
  Life, born, lives, crash, Fate, nobody, unacknowledged, Redelivered, restarted, Life-limits,
}
use mathlib.Core.List.{Permᴰ}
use email_proxy.Tests.WorkerRuns.{job_at, body_at}

sound : IsSound env
unfolding text_eq
sound = record { decoded = λ job job' h. (ground arith, ground arith); apart = refl }

abbrev pub idle : System env
idle = record {
  world = one_mail;
  taken = [];
  in_flight = [];
  sleeping = [];
  active_jobs = 0;
  is_shutdown = false;
  submitted = [];
  attempted = [];
  delivered = [];
}

idle-IsFresh : IsFresh env idle
idle-IsFresh = record {
  none_pending = refl;
  none_taken = refl;
  none_in_flight = refl;
  none_sleeping = refl;
  none_submitted = refl;
  none_attempted = refl;
  none_delivered = refl;
}

abbrev pub one_submitted : System env
one_submitted = after_submit env idle (job_at 0)

pub one_submitted_reached : Reach env idle one_submitted
one_submitted_reached = next here (submit (job_at 0) refl)

-- A tick at which a mail waits and none is attempted, and the timeout.
abbrev events : ℕ → Event env
events zero = tick one_submitted
events (suc k) = timeout

tick_of : (s t : System env) → tick s ≡ tick t → s ≡ t
tick_of s t h = ground arith

all_reached : (k : ℕ) (s : System env) → events k ≡ tick s → Reach env idle s
all_reached zero s h = subst (Reach env idle) (tick_of one_submitted s h) one_submitted_reached
all_reached (suc k) s h = absurd (ground arith)

wait_ends_example : (r : Finish × ℕ) × ((wait env events 2 0 ≡ some r) × IsOver env events 1 r)
wait_ends_example = wait_ends env events idle refl refl all_reached 1 refl 2 (omega arith)

-- A mail that is submitted, taken, and accepted by a service.
abbrev no_messages : Text → List Text
no_messages q = []

others_kept :
    (q : Text)
    → q ≢ text "mail-queue"
    → no_messages q ≡ env.services.waiting q one_submitted.world.broker
unfolding publish_mail publish
others_kept q other = ground (arith, text_eq_iff (text "mail-queue") q)

abbrev pub one_taken : System env
one_taken = after_take env one_submitted (body_at 0) no_messages

abbrev pub one_begun : System env
one_begun =
    after_begin env one_taken [] (job_at 0) (mark_processing env noon (job_at 0) one_taken.world)

pub first_step : Step env one_submitted one_taken
unfolding publish_mail publish text_eq
first_step = take (body_at 0) no_messages refl refl others_kept

pub second_step : Step env one_taken one_begun
unfolding begin is_cancelled text_eq publish_mail
second_step = receive noon [] [] (body_at 0) (job_at 0) _ refl refl

begun-Life : Life env idle one_begun []
begun-Life = lives (lives (lives born (submit (job_at 0) refl)) first_step) second_step

-- The worker dies after the mail was accepted and before its message is acknowledged.
abbrev again : Text → List Text
again q = if text_eq (text "mail-queue") q then body_at 0 ∷ [] else []

no_others :
    (q : Text)
    → q ≢ text "mail-queue"
    → (published : List Text) × (again q
        ≡ env.services.waiting q one_begun.world.broker ++ published)
unfolding mark_processing update_row note_status set_status
no_others q other = ([], ground (arith, text_eq_iff (text "mail-queue") q))

redelivered : Redelivered env one_begun (body_at 0 ∷ []) again
unfolding mark_processing update_row note_status set_status text_eq
redelivered = record { read = refl; queued_again = Permᴰ.cons refl Permᴰ.nil; others = no_others }

one_died : Fate env one_begun.in_flight (text "a1" ∷ []) (text "a1" ∷ [])
unfolding attempt send_mail route to_lower has_suffix
one_died = unacknowledged (job_at 0) (mailer accepted) one_mail refl nobody

abbrev reborn : System env
reborn = restarted env one_begun again (text "a1" ∷ []) (text "a1" ∷ [])

reborn-Life : Life env idle reborn (text "a1" ∷ [])
reborn-Life = crash (body_at 0 ∷ []) _ _ again begun-Life redelivered one_died

Life-limits_example :
    (count (text "a1") reborn.attempted
      ≤ max 1 5 * count (text "a1") reborn.submitted + count (text "a1") (text "a1" ∷ []))
    × (count (text "a1") reborn.delivered
        ≤ count (text "a1") reborn.submitted + count (text "a1") (text "a1" ∷ []))
Life-limits_example =
    Life-limits env idle reborn (text "a1" ∷ []) (text "a1") sound idle-IsFresh reborn-Life

-- The mail is sent a second time.
abbrev taken_again : System env
taken_again = after_take env reborn (body_at 0) no_messages

abbrev begun_again : System env
begun_again =
    after_begin env taken_again [] (job_at 0)
      (mark_processing env noon (job_at 0) taken_again.world)

abbrev done_again : System env
done_again = after_complete env begun_again later (mailer accepted) [] (job_at 0)

kept_again : (q : Text) → q ≢ text "mail-queue" → no_messages q ≡ again q
kept_again q other = ground (arith, text_eq_iff (text "mail-queue") q)

take_again : Step env reborn taken_again
unfolding text_eq
take_again = take (body_at 0) no_messages refl refl kept_again

begin_again : Step env taken_again begun_again
unfolding begin is_cancelled text_eq publish_mail mark_processing update_row note_status set_status
begin_again = receive noon [] [] (body_at 0) (job_at 0) _ refl refl

finish_again : Step env begun_again done_again
unfolding attempt send_mail route to_lower has_suffix
finish_again = finish later (mailer accepted) [] [] (job_at 0) refl (λ h. cc)

whole-Life : Life env idle done_again (text "a1" ∷ [])
whole-Life = lives (lives (lives reborn-Life take_again) begin_again) finish_again

readable : IsReadable env
readable job = (_, refl)

done_again-IsIdle : IsIdle env done_again
unfolding attempt send_mail route to_lower has_suffix complete mark_sent update_row note_status
    set_status mark_processing
done_again-IsIdle = record {
  none_pending = refl;
  none_taken = refl;
  none_in_flight = refl;
  none_sleeping = refl;
}

nothing_lost_example :
    count (text "a1") done_again.submitted
    ≤ count (text "a1") done_again.delivered
      + failed_count env (text "a1") done_again.world
      + count (text "a1") (discarded env whole-Life)
      + count (text "a1") (forgotten env whole-Life)
nothing_lost_example =
    nothing_lost env idle done_again (text "a1" ∷ []) (text "a1") sound readable services_reliable
      idle-IsFresh whole-Life done_again-IsIdle
