-- ===== src/Worker/Start.antt =====
-- internal/worker/consumer.go: `Start`, and what `GracefulShutdown` does to the connection before and
-- after its wait. Start runs in a goroutine of its own, so it is taken in steps, between which the
-- shutdown may come.
pub mod Laws
use email_proxy.Prelude.{ℕ, zero, suc, List, [], ◌∷◌, Option, none, some}
use email_proxy.Prelude.Results.{ok, err}
use email_proxy.Text.{Text}
use email_proxy.Config.{Config}
use email_proxy.Amqp.{Amqp}
use email_proxy.Queue.Topology.{mail_queue}
use email_proxy.Queue.Connect.{when}

-- The connection and the channel of the consumer, which are nil until Start has them.
pub record Consumer : Type 0 where
  pub conn : Option ℕ
  pub channel : Option ℕ

unfoldable pub new_consumer : Consumer
new_consumer = record { conn = none; channel = none }

-- The channel of deliveries that each goroutine of processMessages is given.
abbrev pub goroutines : ℕ → ℕ → List ℕ
goroutines zero messages = []
goroutines (suc n) messages = messages ∷ goroutines n messages

-- How far Start has come: before each of its calls, with the connection and the channel that it has;
-- at its end, with the goroutines; or at its error.
pub data Progress : Type 0 where
  dialling : Progress
  connected : ℕ → Progress
  on_channel : ℕ → ℕ → Progress
  declared : ℕ → ℕ → Progress
  limited : ℕ → ℕ → Progress
  consuming : ℕ → ℕ → List ℕ → Progress
  failed_with : Consumer → Text → Progress

abbrev both : ℕ → ℕ → Consumer
both conn channel = record { conn = some conn; channel = some channel }

-- What another goroutine reads in the fields of the consumer.
unfoldable pub consumer_of : Progress → Consumer
consumer_of dialling = new_consumer
consumer_of (connected conn) = record { conn = some conn; channel = none }
consumer_of (on_channel conn channel) = both conn channel
consumer_of (declared conn channel) = both conn channel
consumer_of (limited conn channel) = both conn channel
consumer_of (consuming conn channel deliveries) = both conn channel
consumer_of (failed_with c cause) = c

-- The error that Start has returned.
unfoldable pub failure_of : Progress → Option Text
failure_of (failed_with c cause) = some cause
failure_of _ = none

-- How many calls Start makes before the signal, between GracefulShutdown's cancelling and its label
-- `cleanup`, and from there to the end of the process.
pub record Schedule : Type 0 where
  pub before_signal : ℕ
  pub during_wait : ℕ
  pub after_cleanup : ℕ

module _ (a : Amqp) where
  -- The next call of Start.
  unfoldable pub start_step : Config → Progress → a.State → Progress × a.State
  start_step cfg dialling s =
      let (s', dialled) = a.dial cfg.rabbitmq_url s in
      elim dialled [
        | err cause ↦ (failed_with new_consumer cause, s')
        | ok conn ↦ (connected conn, s')
      ]
  start_step cfg (connected conn) s =
      let (s', opened) = a.open_channel conn s in
      elim opened [
        | err cause ↦ (failed_with (record { conn = some conn; channel = none }) cause, s')
        | ok channel ↦ (on_channel conn channel, s')
      ]
  start_step cfg (on_channel conn channel) s =
      let (s', declare_error) = a.declare channel (mail_queue cfg) s in
      elim declare_error [
        | some cause ↦ (failed_with (both conn channel) cause, s')
        | none ↦ (declared conn channel, s')
      ]
  start_step cfg (declared conn channel) s =
      let (s', qos_error) = a.qos channel cfg.worker_prefetch s in
      elim qos_error [
        | some cause ↦ (failed_with (both conn channel) cause, s')
        | none ↦ (limited conn channel, s')
      ]
  start_step cfg (limited conn channel) s =
      let (s', messages) = a.consume channel cfg.mail_queue_name [] s in
      elim messages [
        | err cause ↦ (failed_with (both conn channel) cause, s')
        | ok deliveries ↦
            (consuming conn channel (goroutines cfg.worker_concurrency deliveries), s')
      ]
  start_step cfg (consuming conn channel deliveries) s = (consuming conn channel deliveries, s)
  start_step cfg (failed_with c cause) s = (failed_with c cause, s)

  -- The next calls of Start, a number of them; from `dialling` on, five are all of it.
  unfoldable pub start_steps : Config → ℕ → Progress → a.State → Progress × a.State
  start_steps cfg zero p s = (p, s)
  start_steps cfg (suc n) p s = let (p', s') = start_step cfg p s in start_steps cfg n p' s'

  -- GracefulShutdown cancels the consumer with the tag "".
  unfoldable pub stop_consuming : Consumer → a.State → a.State
  stop_consuming c s = when a (λ n. a.cancel n []) c.channel s

  -- The label `cleanup` of GracefulShutdown.
  unfoldable pub cleanup : Consumer → a.State → a.State
  cleanup c s = when a a.close c.conn (when a a.close_channel c.channel s)

  -- Start until the signal, until the cleanup, and until main returns, with what else happens to the
  -- connections while GracefulShutdown waits.
  unfoldable pub until_signal : Config → Schedule → a.State → Progress × a.State
  until_signal cfg r s = start_steps cfg r.before_signal dialling s

  unfoldable pub until_cleanup :
      Config → Schedule → (a.State → a.State) → a.State → Progress × a.State
  until_cleanup cfg r meanwhile s =
      let (p, t) = until_signal cfg r s in
      start_steps cfg r.during_wait p (meanwhile (stop_consuming (consumer_of p) t))

  unfoldable pub until_exit : Config → Schedule → (a.State → a.State) → a.State → Progress × a.State
  until_exit cfg r meanwhile s =
      let (p, t) = until_cleanup cfg r meanwhile s in
      start_steps cfg r.after_cleanup p (cleanup (consumer_of p) t)
