-- ===== src/Worker/Start/Laws.antt =====
-- Which connections the consumer leaves open.
use email_proxy.Prelude.{
  ℕ, zero, suc, ◌≡◌, ◌≢◌, refl, sym, ap, ◌∙◌, Option, none, some, Option-cases, inl, inr, [], ◌⊎◌,
}
use mathlib.Core.Path.{subst}
use email_proxy.Prelude.Results.{Result-cases}
use email_proxy.Config.{Config}
use email_proxy.Amqp.{
  Amqp, OpensAtMost, OpensAtMost-then, close-OpensAtMost, dial-OpensAtMost, dial_failed,
}
use email_proxy.Queue.Topology.{mail_queue}
use email_proxy.Queue.Connect.{when}
use email_proxy.Queue.Connect.Laws.{when-OpensAtMost}
use email_proxy.Worker.Start.{
  new_consumer, Progress, dialling, connected, on_channel, declared, limited, consuming,
  failed_with, consumer_of, start_step, start_steps, stop_consuming, cleanup, Schedule,
  until_signal, until_cleanup, until_exit,
}

module _ (a : Amqp) where
  -- After a step from a connection on: nothing more was opened, and the connection is the same.
  record GoesOn (p : Progress) (s : a.State) (next : Progress × a.State) : Type 0 where
    quiet : OpensAtMost a none s next.1
    same_conn : (consumer_of next.0).conn ≡ (consumer_of p).conn
    no_dial : next.0 ≢ dialling

  on_conn :
      (conn : ℕ) (p p' : Progress) (s s' : a.State)
      → (consumer_of p).conn ≡ some conn
      → (consumer_of p').conn ≡ some conn
      → OpensAtMost a none s s'
      → GoesOn p s (p', s')
  unfolding consumer_of new_consumer
  on_conn conn p p' s s' before after quiet = record {
    quiet = quiet;
    same_conn = after ∙ sym before;
    no_dial = λ dials. cc (after, ap (λ q. (consumer_of q).conn) dials);
  }

  step-GoesOn :
      (cfg : Config) (p : Progress) (s : a.State) → p ≢ dialling → GoesOn p s (start_step a cfg p s)
  unfolding start_step consumer_of
  step-GoesOn cfg dialling s other = absurd (other refl)
  step-GoesOn cfg (connected conn) s other =
      let quiet = a.open_channel-opens conn s in
      elim (Result-cases (a.open_channel conn s).1) [
        | inl (channel, fine) ↦ rw (fine, start_step) (on_conn conn _ _ s _ refl refl quiet)
        | inr (cause, bad) ↦ rw (bad, start_step) (on_conn conn _ _ s _ refl refl quiet)
      ]
  step-GoesOn cfg (on_channel conn channel) s other =
      let quiet = a.declare-opens channel (mail_queue cfg) s in
      elim (Option-cases (a.declare channel (mail_queue cfg) s).1) [
        | inl fine ↦ rw (fine, start_step) (on_conn conn _ _ s _ refl refl quiet)
        | inr (cause, bad) ↦ rw (bad, start_step) (on_conn conn _ _ s _ refl refl quiet)
      ]
  step-GoesOn cfg (declared conn channel) s other =
      let quiet = a.qos-opens channel cfg.worker_prefetch s in
      elim (Option-cases (a.qos channel cfg.worker_prefetch s).1) [
        | inl fine ↦ rw (fine, start_step) (on_conn conn _ _ s _ refl refl quiet)
        | inr (cause, bad) ↦ rw (bad, start_step) (on_conn conn _ _ s _ refl refl quiet)
      ]
  step-GoesOn cfg (limited conn channel) s other =
      let quiet = a.consume-opens channel cfg.mail_queue_name [] s in
      elim (Result-cases (a.consume channel cfg.mail_queue_name [] s).1) [
        | inl (deliveries, fine) ↦ rw (fine, start_step) (on_conn conn _ _ s _ refl refl quiet)
        | inr (cause, bad) ↦ rw (bad, start_step) (on_conn conn _ _ s _ refl refl quiet)
      ]
  step-GoesOn cfg (consuming conn channel deliveries) s other = record {
    quiet = λ c h. h;
    same_conn = refl;
    no_dial = other;
  }
  step-GoesOn cfg (failed_with c cause) s other = record {
    quiet = λ n h. h;
    same_conn = refl;
    no_dial = other;
  }

  -- Once Start has called Dial it opens nothing more.
  pub steps-quiet :
      (cfg : Config) (n : ℕ) (p : Progress) (s : a.State)
      → p ≢ dialling
      → OpensAtMost a none s (start_steps a cfg n p s).1
  unfolding start_steps
  steps-quiet cfg zero p s other = λ c h. h
  steps-quiet cfg (suc n) p s other =
      let first = step-GoesOn cfg p s other in
      let (p', s') = start_step a cfg p s in
      OpensAtMost-then a none s s' _ first.quiet (steps-quiet cfg n p' s' first.no_dial)

  is_dialling : (p : Progress) → (p ≡ dialling) ⊎ (p ≢ dialling)
  is_dialling dialling = inl refl
  is_dialling (connected conn) = inr (λ h. cc)
  is_dialling (on_channel conn channel) = inr (λ h. cc)
  is_dialling (declared conn channel) = inr (λ h. cc)
  is_dialling (limited conn channel) = inr (λ h. cc)
  is_dialling (consuming conn channel deliveries) = inr (λ h. cc)
  is_dialling (failed_with c cause) = inr (λ h. cc)

  -- At most the connection of the consumer was opened since the state `s`.
  abbrev pub Within : a.State → Progress × a.State → Type 0
  Within s now = OpensAtMost a (consumer_of now.0).conn s now.1

  dial-Within :
      (cfg : Config) (s t : a.State)
      → Within s (dialling, t)
      → Within s (start_step a cfg dialling t)
  unfolding start_step consumer_of new_consumer
  dial-Within cfg s t h = elim (Result-cases (a.dial cfg.rabbitmq_url t).1) [
    | inl (conn, fine) ↦
        rw (fine, start_step)
          (λ c k. elim (dial-OpensAtMost a cfg.rabbitmq_url t conn fine c k) [
            | inl before ↦ inl (h c before)
            | inr this ↦ inr this
          ])
    | inr (cause, bad) ↦
        rw (bad, start_step)
          (OpensAtMost-then a none s t _ h (dial_failed a cfg.rabbitmq_url t cause bad))
  ]

  step-Within :
      (cfg : Config) (s : a.State) (p : Progress) (t : a.State)
      → Within s (p, t)
      → Within s (start_step a cfg p t)
  step-Within cfg s p t h = elim (is_dialling p) [
    | inl dials ↦
        subst (λ q. Within s (q, t) → Within s (start_step a cfg q t)) (sym dials)
          (dial-Within cfg s t) h
    | inr other ↦
        let step = step-GoesOn cfg p t other in
        subst (λ o. OpensAtMost a o s (start_step a cfg p t).1) (sym step.same_conn)
          (OpensAtMost-then a (consumer_of p).conn s t _ h step.quiet)
  ]

  pub steps-Within :
      (cfg : Config) (s : a.State) (n : ℕ) (p : Progress) (t : a.State)
      → Within s (p, t)
      → Within s (start_steps a cfg n p t)
  unfolding start_steps
  steps-Within cfg s zero p t h = h
  steps-Within cfg s (suc n) p t h =
      let (p', t') = start_step a cfg p t in steps-Within cfg s n p' t' (step-Within cfg s p t h)

  close_conn :
      (o : Option ℕ) (s t : a.State)
      → OpensAtMost a o s t
      → OpensAtMost a none s (when a a.close o t)
  unfolding when
  close_conn none s t h = h
  close_conn (some n) s t h = close-OpensAtMost a n s t h

  cleanup-OpensAtMost :
      (p : Progress) (s t : a.State)
      → Within s (p, t)
      → OpensAtMost a none s (cleanup a (consumer_of p) t)
  unfolding cleanup
  cleanup-OpensAtMost p s t h =
      let c = consumer_of p in
      close_conn c.conn s _ (
        OpensAtMost-then a c.conn s t _ h
          (when-OpensAtMost a a.close_channel c.channel t (λ n. a.close_channel-opens n t)))

  module _ (cfg : Config) (r : Schedule) (meanwhile : a.State → a.State)
      (quiet : (t : a.State) → OpensAtMost a none t (meanwhile t)) (s : a.State) where
    until_cleanup-Within : Within s (until_cleanup a cfg r meanwhile s)
    unfolding until_cleanup until_signal stop_consuming consumer_of new_consumer
    until_cleanup-Within =
        let (p, t) = start_steps a cfg r.before_signal dialling s in
        let c = consumer_of p in
        let stopped = stop_consuming a c t in
        let begun = steps-Within cfg s r.before_signal dialling s (λ n h. h) in
        let cancelled =
          OpensAtMost-then a c.conn s t stopped begun
            (when-OpensAtMost a (λ n. a.cancel n []) c.channel t (λ n. a.cancel-opens n [] t)) in
        steps-Within cfg s r.during_wait p (meanwhile stopped)
          (OpensAtMost-then a c.conn s stopped _ cancelled (quiet stopped))

    -- Wherever Start is when the signal comes: when the process ends, every connection that is open
    -- was open before Start, or the cleanup came before Start had its connection, and one more may be
    -- open, which Start then dialled.
    pub until_exit-OpensAtMost :
        OpensAtMost a none s (until_exit a cfg r meanwhile s).1
        ⊎ (((until_cleanup a cfg r meanwhile s).0 ≡ dialling)
            × Within s (until_exit a cfg r meanwhile s))
    unfolding until_exit consumer_of new_consumer
    until_exit-OpensAtMost =
        let (p, t) = until_cleanup a cfg r meanwhile s in
        let cleaned = cleanup a (consumer_of p) t in
        let closed = cleanup-OpensAtMost p s t until_cleanup-Within in
        elim (is_dialling p) [
          | inl dials ↦ inr (
            dials,
            steps-Within cfg s r.after_cleanup p cleaned
                (subst (λ q. OpensAtMost a (consumer_of q).conn s cleaned) (sym dials) closed),
          )
          | inr other ↦ inl (
              OpensAtMost-then a none s cleaned _ closed
                (steps-quiet cfg r.after_cleanup p cleaned other))
        ]
