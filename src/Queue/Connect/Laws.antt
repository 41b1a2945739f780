-- ===== src/Queue/Connect/Laws.antt =====
-- Which connections NewQueueService and Close leave open.
use email_proxy.Prelude.{ℕ, ◌≡◌, refl, inl, inr, Option, none, some, Option-cases}
use email_proxy.Prelude.Results.{Result, Result-cases, ok, err}
use email_proxy.Text.{Text}
use email_proxy.Config.{Config}
use email_proxy.Amqp.{
  Amqp, OpensAtMost, OpensAtMost-then, close-OpensAtMost, declare_queues-OpensAtMost,
  dial-OpensAtMost, dial_failed,
}
use email_proxy.Queue.Topology.{declare_queues}
use email_proxy.Queue.Connect.{
  QueueService, when, declare_on, open_on, new_queue_service, close_queue_service,
}

module _ (a : Amqp) where
  pub when-OpensAtMost :
      (call : ℕ → a.State → a.State × Option Text) (o : Option ℕ) (s : a.State)
      → ((n : ℕ) → OpensAtMost a none s (call n s).0)
      → OpensAtMost a none s (when a call o s)
  unfolding when
  when-OpensAtMost call none s h = λ c open_c. open_c
  when-OpensAtMost call (some n) s h = h n

  -- A service holds a connection, and nothing else was opened; without one nothing was.
  data Leaves (s : a.State) : a.State × Result QueueService → Type 0 where
    left_none : (t : a.State) (cause : Text) → OpensAtMost a none s t → Leaves s (t, err cause)
    left_one :
        (t : a.State) (q : QueueService) (n : ℕ)
        → q.conn ≡ some n
        → OpensAtMost a (some n) s t
        → Leaves s (t, ok q)

  failed_of :
      {s : a.State} (r : a.State × Result QueueService) (cause : Text)
      → Leaves s r
      → r.1 ≡ err cause
      → OpensAtMost a none s r.0
  failed_of _ cause (left_none t cause' h) bad = h
  failed_of _ cause (left_one t q n conn h) bad = absurd (cc)

  held_of :
      {s : a.State} (r : a.State × Result QueueService) (q : QueueService)
      → Leaves s r
      → r.1 ≡ ok q
      → (n : ℕ) × (q.conn ≡ some n) × OpensAtMost a (some n) s r.0
  held_of _ q (left_none t cause h) fine = absurd (cc)
  held_of _ q (left_one t q' n conn h) fine = (n, cc, h)

  declare_on-Leaves :
      (cfg : Config) (s t : a.State) (conn channel : ℕ)
      → OpensAtMost a (some conn) s t
      → Leaves s (declare_on a cfg conn channel t)
  unfolding declare_on
  declare_on-Leaves cfg s t conn channel h =
      let declared = (declare_queues (a.declare channel) cfg t).0 in
      let still =
        OpensAtMost-then a (some conn) s t declared h
          (declare_queues-OpensAtMost a channel cfg t) in
      elim (Option-cases (declare_queues (a.declare channel) cfg t).1) [
        | inl fine ↦ rw (fine, declare_on) (left_one _ _ conn refl still)
        | inr (cause, bad) ↦
            rw (bad, declare_on)
              (left_none _ cause (
                close-OpensAtMost a conn s _ (
                  OpensAtMost-then a (some conn) s declared _ still
                    (a.close_channel-opens channel declared))))
      ]

  open_on-Leaves :
      (cfg : Config) (s t : a.State) (conn : ℕ)
      → OpensAtMost a (some conn) s t
      → Leaves s (open_on a cfg conn t)
  unfolding open_on
  open_on-Leaves cfg s t conn h =
      let opened = (a.open_channel conn t).0 in
      let still = OpensAtMost-then a (some conn) s t opened h (a.open_channel-opens conn t) in
      elim (Result-cases (a.open_channel conn t).1) [
        | inl (channel, fine) ↦
            rw (fine, open_on) (declare_on-Leaves cfg s opened conn channel still)
        | inr (cause, bad) ↦
            rw (bad, open_on) (left_none _ _ (close-OpensAtMost a conn s opened still))
      ]

  new_queue_service-Leaves : (cfg : Config) (s : a.State) → Leaves s (new_queue_service a cfg s)
  unfolding new_queue_service
  new_queue_service-Leaves cfg s = elim (Result-cases (a.dial cfg.rabbitmq_url s).1) [
    | inl (conn, fine) ↦
        rw (fine, new_queue_service)
          (open_on-Leaves cfg s _ conn (dial-OpensAtMost a cfg.rabbitmq_url s conn fine))
    | inr (cause, bad) ↦
        rw (bad, new_queue_service) (left_none _ _ (dial_failed a cfg.rabbitmq_url s cause bad))
  ]

  -- If NewQueueService fails, at whatever call, every connection that is open afterwards was open
  -- before.
  pub new_queue_service_failed :
      (cfg : Config) (s : a.State) (cause : Text)
      → (new_queue_service a cfg s).1 ≡ err cause
      → OpensAtMost a none s (new_queue_service a cfg s).0
  new_queue_service_failed cfg s cause bad = failed_of _ cause (new_queue_service-Leaves cfg s) bad

  -- Whatever else happens to the service's connection, without opening one, Close leaves no connection
  -- open that was not open before NewQueueService.
  pub close_queue_service-new :
      (cfg : Config) (s t : a.State) (q : QueueService)
      → (new_queue_service a cfg s).1 ≡ ok q
      → OpensAtMost a none (new_queue_service a cfg s).0 t
      → OpensAtMost a none s (close_queue_service a q t).0
  unfolding close_queue_service
  close_queue_service-new cfg s t q fine later =
      let (n, holds, opened) = held_of _ q (new_queue_service-Leaves cfg s) fine in
      let closing = when a a.close_channel q.channel t in
      let still =
        OpensAtMost-then a (some n) s _ closing (OpensAtMost-then a (some n) s _ t opened later)
          (when-OpensAtMost a.close_channel q.channel t (λ k. a.close_channel-opens k t)) in
      rw holds (close-OpensAtMost a n s closing still)
