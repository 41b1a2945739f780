-- ===== src/Worker/System/Losses.antt =====
-- No job is lost between the queues, the goroutines and the attempts, if the services do not fail,
-- but for the retries that sleep when the worker dies.
use email_proxy.Prelude.{
  ℕ, ◌+◌, ◌≤◌, ◌≡◌, refl, sym, ap, ◌∙◌, List, [], ◌∷◌, ◌++◌, arith, sum_of, sum_of-append, inl, inr,
  All, All-append, All-split, Bool-cases, if◌then◌else◌,
}
use email_proxy.Prelude.Results.{Result, Result-cases, ok, err}
use email_proxy.Text.{Text}
use email_proxy.Models.{MailJob}
use email_proxy.Services.{Env, World, IsReliable}
use email_proxy.Worker.Writes.{broker-mark_processing}
use email_proxy.Worker.System.{
  System, pending, Step, submit, take, receive, discard, finish, wake, elsewhere, shut_down,
}
use email_proxy.Worker.{Delayed, Moment, Settlement, begin, stop, is_cancelled}
use email_proxy.Worker.System.Crashes.{Life, born, lives, crash, Redelivered, total-restarted}
use email_proxy.Worker.System.Totals.{IsSound, of_body, of_delayed, of_pending, total}
use email_proxy.Worker.System.Moves.{
  begin-proceed, total-take, total-receive, total-finish, total-discard,
}
use email_proxy.Worker.System.Keeps.{
  IsReadable, of_failed, failed_count, complete_owes, IsRouted, complete-IsRouted, failed-submit,
  total-wake-eq, failed-take, failed_is_other,
}
use mathlib.Core.Path.{subst}
use email_proxy.Worker.System.Limits.{IsFresh, count, count-append, deliveries_left}

ids_of : Result MailJob → List Text
ids_of (ok job) = job.mail_id ∷ []
ids_of (err _) = []

module _ (e : Env) where
  -- The id of the mail of a message, if its row says that it was cancelled.
  cancelled_of : World e.services → Result MailJob → List Text
  cancelled_of w (ok job) = if is_cancelled e job.mail_id w then job.mail_id ∷ [] else []
  cancelled_of w (err _) = []

  -- The ids of the cancelled mails whose messages a handler dropped in a step.
  pub discards : {s t : System e} → Step e s t → List Text
  discards {s} (discard now before after body settlement held begun) =
      cancelled_of s.world (e.platform.unmarshal_job body)
  discards _ = []

  -- Those of a life.
  pub discarded : {s t : System e} {ids : List Text} → Life e s t ids → List Text
  discarded born = []
  discarded (lives life step) = discards step ++ discarded life
  discarded (crash bodies a d broker life again fate) = discarded life

  pub retries_of : List Delayed → List Text
  retries_of [] = []
  retries_of (d ∷ ds) = ids_of (e.platform.unmarshal_job d.message.body) ++ retries_of ds

  -- The ids of the mails whose retries were asleep when the worker died.
  pub forgotten : {s t : System e} {ids : List Text} → Life e s t ids → List Text
  forgotten born = []
  forgotten (lives life step) = forgotten life
  forgotten (crash {t} bodies a d broker life again fate) = retries_of t.sleeping ++ forgotten life

module _ (e : Env) (sound : IsSound e) (reads : IsReadable e) (reliable : IsReliable e.services)
    (id : Text) where
  abbrev weight : Text → ℕ → ℕ
  weight = deliveries_left id

  -- A job that was submitted is in one of the places, delivered, given up, or one of `n` others.
  record IsKept (n : ℕ) (t : System e) : Type 0 where
    kept :
        count id t.submitted
        ≤ total e weight t + failed_count e id t.world + count id t.delivered + n
    routed : All (IsRouted e sound reads reliable id) t.sleeping

  weight_of_ids :
      (body : Text) → of_body e weight body ≡ count id (ids_of (e.platform.unmarshal_job body))
  unfolding ids_of
  weight_of_ids body = elim (Result-cases (e.platform.unmarshal_job body)) [
    | inl (job, read) ↦ rw read (omega arith)
    | inr (cause, bad) ↦ rw bad
  ]

  -- A handler drops the message of a job only if its mail was cancelled.
  weight_of_cancelled :
      (now : Moment) (body : Text) (settlement : Settlement) (w : World e.services)
      → begin e now body w ≡ stop settlement
      → of_body e weight body ≡ count id (cancelled_of e w (e.platform.unmarshal_job body))
  unfolding cancelled_of begin
  weight_of_cancelled now body settlement w begun =
      elim (Result-cases (e.platform.unmarshal_job body)) [
        | inl (job, read) ↦ elim (Bool-cases (is_cancelled e job.mail_id w)) [
          | inl dead ↦ rw (read, dead) (omega arith)
          | inr live ↦ ground (arith, read, live, begun)
        ]
        | inr (cause, bad) ↦ rw bad
      ]

  Step-IsKept :
      (n : ℕ) {t u : System e} (step : Step e t u)
      → IsKept n t
      → IsKept (count id (discards e step) + n) u
  unfolding total discards of_pending
  Step-IsKept n {t} (submit job fresh) h =
      let (more, same) = failed-submit e sound reads reliable id job t.world in
      record { kept = omega (arith, h.kept, more, same); routed = h.routed }
  Step-IsKept n {t} (take body broker running first others) h = record {
    kept = omega (
      arith,
      h.kept,
      total-take e weight sound t body broker first,
      failed-take e sound reads reliable id t broker others,
    );
    routed = h.routed;
  }
  Step-IsKept n {t} (receive now before after body job w held begun) h =
      let (read, moved) = begin-proceed e now body t.world w job begun in
      let same : of_failed e weight w ≡ of_failed e weight t.world =
        ap (of_failed e weight) moved ∙ rw (broker-mark_processing e now job t.world) in
      record {
        kept = omega (
          arith,
          h.kept,
          total-receive e weight sound t now before after body job w held begun,
          same,
        );
        routed = h.routed;
      }
  Step-IsKept n {t} (discard now before after body settlement held begun) h = record {
    kept = omega (
      arith,
      h.kept,
      total-discard e weight sound t before after body held,
      weight_of_cancelled now body settlement t.world begun,
    );
    routed = h.routed;
  }
  Step-IsKept n {t} (finish now m before after job held sane) h = record {
    kept = omega (
      arith,
      h.kept,
      total-finish e weight sound t now m before after job held,
      complete_owes e sound reads reliable id now m job t.world t.delivered sane,
    );
    routed =
        All-append (IsRouted e sound reads reliable id) _ t.sleeping
          (complete-IsRouted e sound reads reliable id now m job t.world) h.routed;
  }
  Step-IsKept n {t} (wake before after d held) h =
      let (to, others) =
        All-split (IsRouted e sound reads reliable id) before after d
          (subst (All (IsRouted e sound reads reliable id)) held h.routed) in
      let (same, failed_same) = total-wake-eq e sound reads reliable id t before after d held to in
      record { kept = omega (arith, h.kept, same, failed_same); routed = others }
  Step-IsKept n {t} (elsewhere db cache) h = record {
    kept = omega (arith, h.kept);
    routed = h.routed;
  }
  Step-IsKept n {t} shut_down h = record { kept = omega (arith, h.kept); routed = h.routed }

  weight_of_retries :
      (ds : List Delayed) → sum_of (of_delayed e weight) ds ≡ count id (retries_of e ds)
  unfolding retries_of
  weight_of_retries [] = refl
  weight_of_retries (d ∷ ds) = omega (
    arith,
    weight_of_ids d.message.body,
    weight_of_retries ds,
    count-append id (ids_of (e.platform.unmarshal_job d.message.body)) (retries_of e ds),
  )

  failed-crash :
      (t : System e) (bodies : List Text) (broker : e.services.Broker)
      → Redelivered e t bodies broker
      → of_failed e weight t.world ≤ of_failed e weight (record t.world { broker = broker })
  failed-crash t bodies broker again =
      let (published, more) = again.others e.config.failed_queue_name (failed_is_other e sound) in
      omega (
        arith,
        ap (sum_of (of_body e weight)) more,
        sum_of-append (of_body e weight)
            (e.services.waiting e.config.failed_queue_name t.world.broker) published,
      )

  Life-IsKept :
      {s t : System e} {ids : List Text}
      → IsFresh e s
      → (life : Life e s t ids)
      → IsKept (count id (discarded e life) + count id (forgotten e life)) t
  unfolding discarded forgotten
  Life-IsKept {s} fresh born = record {
    kept = omega (arith, ap (count id) fresh.none_submitted);
    routed = subst (All (IsRouted e sound reads reliable id)) (sym fresh.none_sleeping) tt;
  }
  Life-IsKept fresh (lives life step) =
      let old = count id (discarded e life) + count id (forgotten e life) in
      let h = Step-IsKept old step (Life-IsKept fresh life) in
      record {
        kept = omega (arith, h.kept, count-append id (discards e step) (discarded e life));
        routed = h.routed;
      }
  Life-IsKept fresh (crash {t} bodies a d broker life again fate) =
      let h = Life-IsKept fresh life in
      record {
        kept = omega (
          arith,
          h.kept,
          total-restarted e weight t bodies a d broker again,
          failed-crash t bodies broker again,
          weight_of_retries t.sleeping,
          count-append id d t.delivered,
          count-append id (retries_of e t.sleeping) (forgotten e life),
        );
        routed = tt;
      }

-- Nothing waits and nobody works.
pub record IsIdle (e : Env) (t : System e) : Type 0 where
  pub none_pending : pending e t.world ≡ []
  pub none_taken : t.taken ≡ []
  pub none_in_flight : t.in_flight ≡ []
  pub none_sleeping : t.sleeping ≡ []

-- With services that do not fail, however often the worker dies and is started again: when nothing
-- waits and nobody works any more, every submission of a mail has ended in a delivery, in a job in
-- the failed queue, in a message that a handler dropped because the row of the mail said cancelled,
-- or in a retry that was asleep when the worker died.
pub nothing_lost :
    (e : Env) (s t : System e) (ids : List Text) (id : Text)
    → IsSound e
    → IsReadable e
    → IsReliable e.services
    → IsFresh e s
    → (life : Life e s t ids) → IsIdle e t
    → count id t.submitted
      ≤ count id t.delivered
        + failed_count e id t.world
        + count id (discarded e life)
        + count id (forgotten e life)
unfolding total of_pending
nothing_lost e s t ids id sound reads reliable fresh life idle =
    let kept = Life-IsKept e sound reads reliable id fresh life in
    let nowhere : total e (deliveries_left id) t ≡ 0 =
      rw (idle.none_pending, idle.none_taken, idle.none_in_flight, idle.none_sleeping) refl in
    omega (arith, kept.kept, nowhere)
