-- ===== src/Worker/System/Closing.antt =====
-- internal/worker/consumer.go `GracefulShutdown`: how it waits for the jobs.
use email_proxy.Prelude.{
  ℕ, zero, suc, ◌+◌, ◌≤◌, ◌<◌, ◌≡◌, refl, ◌∙◌, ◌⊎◌, inl, inr, [], Option, none, some, arith, ◌==◌,
  ==_iff, Bool-cases, if◌then◌else◌,
}
use mathlib.Core.Path.{ap}
use email_proxy.Services.{Env}
use email_proxy.Worker.System.{System, Reach}
use email_proxy.Worker.System.Shutdown.{idle_has_no_jobs}

-- What the select statement receives: the timeout, or a tick, at which the worker is in some state.
pub data Event (e : Env) : Type 0 where
  timeout : Event e
  tick : System e → Event e

-- Why the wait ends.
pub data Finish : Type 0 where
  forced idle : Finish

module _ (e : Env) (events : ℕ → Event e) where
  -- The loop from the `k`-th event on, with the number of the event that ends it.
  unfoldable pub wait : ℕ → ℕ → Option (Finish × ℕ)
  wait zero k = none
  wait (suc fuel) k =
      let rest = wait fuel (k + 1) in
      elim (events k) [
        | timeout ↦ some (forced, k)
        | tick s ↦ if s.active_jobs == 0 then some (idle, k) else rest
      ]

  pub Event-cases : (x : Event e) → (x ≡ timeout) ⊎ ((s : System e) × (x ≡ tick s))
  Event-cases timeout = inl refl
  Event-cases (tick s) = inr (s, refl)

  -- What holds when the wait has ended at the event `k` of those up to the timeout.
  pub data IsOver (last : ℕ) : Finish × ℕ → Type 0 where
    was_forced : (k : ℕ) → k ≤ last → events k ≡ timeout → IsOver last (forced, k)
    was_idle :
        (k : ℕ) (s : System e)
        → k ≤ last
        → events k ≡ tick s
        → s.in_flight ≡ []
        → IsOver last (idle, k)

  module _ (start : System e) (none_active : start.active_jobs ≡ 0)
      (none_held : start.in_flight ≡ [])
      (reached : (k : ℕ) (s : System e) → events k ≡ tick s → Reach e start s) (last : ℕ)
      (ends : events last ≡ timeout) where
    wait-IsOver :
        (fuel k d : ℕ)
        → k + d ≡ last
        → d < fuel
        → (r : Finish × ℕ) × ((wait fuel k ≡ some r) × IsOver last r)
    unfolding wait
    wait-IsOver zero k d sum below = absurd (omega (arith, below))
    wait-IsOver (suc fuel) k zero sum below =
        let over : events k ≡ timeout = ap events (omega (arith, sum)) ∙ ends in
        ((forced, k), (rw (wait, over) refl, was_forced k (omega (arith, sum)) over))
    wait-IsOver (suc fuel) k (suc d) sum below = elim (Event-cases (events k)) [
      | inl over ↦ ((forced, k), (rw (wait, over) refl, was_forced k (omega (arith, sum)) over))
      | inr (s, ticks) ↦ elim (Bool-cases (s.active_jobs == 0)) [
        | inl none_left ↦
            let count : s.active_jobs ≡ 0 = (==_iff s.active_jobs 0).0 none_left in
            (
              (idle, k),
              (
                rw (wait, ticks, none_left) refl,
                was_idle k s (omega (arith, sum)) ticks
                    (idle_has_no_jobs e start s none_active none_held (reached k s ticks) count),
              ),
            )
        | inr some_left ↦
            let (r, (ran, over)) =
              wait-IsOver fuel (k + 1) d (omega (arith, sum)) (omega (arith, below)) in
            (r, (rw (wait, ticks, some_left) ran, over))
      ]
    ]

    -- The wait of GracefulShutdown ends with the timeout at the latest. It ends before the timeout only
    -- at a tick at which no attempt is being made, if the worker began without jobs.
    pub wait_ends :
        (fuel : ℕ) → last < fuel → (r : Finish × ℕ) × ((wait fuel 0 ≡ some r) × IsOver last r)
    wait_ends fuel below = wait-IsOver fuel 0 last (omega arith) below
