-- ===== src/Queue/Connect.antt =====
-- internal/services/queue_service.go `NewQueueService` and `Close`.
pub mod Laws
use email_proxy.Prelude.{ℕ, ◌++◌, Option, none, some}
use email_proxy.Prelude.Results.{Result, ok, err}
use email_proxy.Text.{Text, text}
use email_proxy.Config.{Config}
use email_proxy.Amqp.{Amqp}
use email_proxy.Queue.Topology.{declare_queues}

-- The connection and the channel, of which Close tests that they are not nil.
pub record QueueService : Type 0 where
  pub conn : Option ℕ
  pub channel : Option ℕ

module _ (a : Amqp) where
  -- A call whose error is dropped, if there is something to call.
  unfoldable pub when : (ℕ → a.State → a.State × Option Text) → Option ℕ → a.State → a.State
  when call none s = s
  when call (some n) s = (call n s).0

  unfoldable pub declare_on : Config → ℕ → ℕ → a.State → a.State × Result QueueService
  declare_on cfg conn channel s =
      let (s', error) = declare_queues (a.declare channel) cfg s in
      elim error [
        | some cause ↦ ((a.close conn (a.close_channel channel s').0).0, err cause)
        | none ↦ (s', ok (record { conn = some conn; channel = some channel }))
      ]

  unfoldable pub open_on : Config → ℕ → a.State → a.State × Result QueueService
  open_on cfg conn s =
      let (s', opened) = a.open_channel conn s in
      elim opened [
        | err cause ↦ ((a.close conn s').0, err (text "failed to open channel: " ++ cause))
        | ok channel ↦ declare_on cfg conn channel s'
      ]

  -- `NewQueueService`
  unfoldable pub new_queue_service : Config → a.State → a.State × Result QueueService
  new_queue_service cfg s =
      let (s', dialled) = a.dial cfg.rabbitmq_url s in
      elim dialled [
        | err cause ↦ (s', err (text "failed to connect to RabbitMQ: " ++ cause))
        | ok conn ↦ open_on cfg conn s'
      ]

  -- `Close`
  unfoldable pub close_queue_service : QueueService → a.State → a.State × Option Text
  close_queue_service q s =
      let s' = when a.close_channel q.channel s in
      elim q.conn [ none ↦ (s', none) | some conn ↦ a.close conn s' ]
