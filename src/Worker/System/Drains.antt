-- ===== src/Worker/System/Drains.antt =====
-- internal/worker/consumer.go `GracefulShutdown`: what becomes of the jobs in flight if the wait is not
-- ended by its timeout.
use email_proxy.Prelude.{
  ℕ, zero, suc, ◌+◌, ◌≤◌, ◌≡◌, refl, sym, ap, ◌∙◌, length, [], ◌∷◌, true, some, arith, sum_of,
  sum_of-append, inl, inr, ◌==◌, ==_iff, Bool-cases,
}
use email_proxy.Text.{Text}
use email_proxy.Services.{Env}
use email_proxy.Worker.System.{
  System, Step, submit, take, receive, discard, finish, wake, elsewhere, shut_down, Reach, here,
  next,
}
use email_proxy.Worker.System.Totals.{of_job, of_body}
use email_proxy.Worker.System.Moves.{begin-proceed, of_taken}
use email_proxy.Worker.System.Limits.{count, deliveries_left}
use email_proxy.Worker.System.Shutdown.{Reach-Counts, nil_of_length}
use email_proxy.Worker.System.Closing.{Event, tick, Event-cases, idle, wait}

module _ (e : Env) (id : Text) where
  -- How many jobs of the mail are attempted, and how many messages of it are taken.
  abbrev pub held : System e → ℕ
  held s = sum_of (of_job e (deliveries_left id)) s.in_flight

  abbrev pub received : System e → ℕ
  received s = sum_of (of_body e (deliveries_left id)) s.taken

  -- From one state to a later one, after the shutdown has begun.
  record Between (s t : System e) : Type 0 where
    down : t.is_shutdown ≡ true
    kept : count id s.attempted + held s ≤ count id t.attempted + held t
    bounded :
        count id t.attempted + held t + received t ≤ count id s.attempted + held s + received s

  after_step :
      (s t u : System e)
      → Between s t
      → u.is_shutdown ≡ true
      → count id t.attempted + held t ≤ count id u.attempted + held u
      → count id u.attempted + held u + received u ≤ count id t.attempted + held t + received t
      → Between s u
  after_step s t u h down more less = record {
    down = down;
    kept = omega (arith, h.kept, more);
    bounded = omega (arith, h.bounded, less);
  }

  Step-Between : (s : System e) {t u : System e} → Step e t u → Between s t → Between s u
  Step-Between s {t} {u} (submit job fresh) h =
      after_step s t u h h.down (omega arith) (omega arith)
  Step-Between s (take body broker running first others) h = absurd (cc (h.down, running))
  Step-Between s {t} {u} (receive now before after body job w taken begun) h =
      let f = deliveries_left id in
      let weight : of_body e f body ≡ of_job e f job =
        rw ((begin-proceed e now body t.world w job begun).0) in
      after_step s t u h h.down (omega arith)
        (omega (arith, of_taken e f t before after body taken, weight))
  Step-Between s {t} {u} (discard now before after body settlement taken begun) h =
      after_step s t u h h.down (omega arith)
        (omega (arith, of_taken e (deliveries_left id) t before after body taken))
  Step-Between s {t} {u} (finish now m before after job working sane) h =
      let f = of_job e (deliveries_left id) in
      let all = ap (sum_of f) working in
      let first = sum_of-append f before (job ∷ after) in
      let second = sum_of-append f before after in
      after_step s t u h h.down (omega (arith, all, first, second))
        (omega (arith, all, first, second))
  Step-Between s {t} {u} (wake before after d sleeps) h =
      after_step s t u h h.down (omega arith) (omega arith)
  Step-Between s {t} {u} (elsewhere db cache) h =
      after_step s t u h h.down (omega arith) (omega arith)
  Step-Between s {t} {u} shut_down h = after_step s t u h refl (omega arith) (omega arith)

  Reach-Between : (s : System e) {t : System e} → s.is_shutdown ≡ true → Reach e s t → Between s t
  Reach-Between s h here = record { down = h; kept = omega arith; bounded = omega arith }
  Reach-Between s h (next r step) = Step-Between s step (Reach-Between s h r)

-- A wait that ends before its timeout has seen a count of 0.
idle_at :
    (e : Env) (events : ℕ → Event e) (fuel k n : ℕ)
    → wait e events fuel k ≡ some (idle, n)
    → (t : System e) × (events n ≡ tick t) × (t.active_jobs ≡ 0)
unfolding wait
idle_at e events zero k n h = absurd (ground arith)
idle_at e events (suc fuel) k n h = elim (Event-cases e events (events k)) [
  | inl over ↦ absurd (ground arith)
  | inr (s, ticks) ↦ elim (Bool-cases (s.active_jobs == 0)) [
    | inl none_left ↦
        let same : k ≡ n = ground arith in
        (s, ap events (sym same) ∙ ticks, (==_iff s.active_jobs 0).0 none_left)
    | inr some_left ↦ idle_at e events fuel (k + 1) n (ground arith)
  ]
]

-- If the wait of GracefulShutdown ends before its timeout, no job is being attempted any more: of
-- every mail, each job that was in flight when the shutdown began has been attempted to its end, and
-- the only other attempts since then are of messages of the mail that were taken before. `start` is
-- a worker without jobs, `s` its state when the shutdown has begun, and a tick of the wait sees a state
-- that is reached from `s`.
pub shut_down_drains :
    (e : Env) (start s : System e) (id : Text)
    → start.active_jobs ≡ 0
    → start.in_flight ≡ []
    → Reach e start s
    → s.is_shutdown ≡ true
    → (events : ℕ → Event e) → ((k : ℕ) (t : System e) → events k ≡ tick t → Reach e s t)
    → (fuel n : ℕ) → wait e events fuel 0 ≡ some (idle, n)
    → (t : System e) × (events n ≡ tick t)
      × (t.in_flight ≡ [])
      × (count id s.attempted + held e id s ≤ count id t.attempted)
      × (count id t.attempted ≤ count id s.attempted + held e id s + received e id s)
shut_down_drains e start s id none_active none_held begun down events reached fuel n ended =
    let (t, ticks, none_left) = idle_at e events fuel 0 n ended in
    let counts = Reach-Counts e begun (omega (arith, ap length none_held)) in
    let empty =
      nil_of_length t.in_flight (omega (arith, Reach-Counts e (reached n t ticks) counts)) in
    let between = Reach-Between e id s down (reached n t ticks) in
    let none = ap (sum_of (of_job e (deliveries_left id))) empty in
    (t, ticks, empty, omega (arith, between.kept, none), omega (arith, between.bounded, none))
