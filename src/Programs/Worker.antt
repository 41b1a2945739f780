-- ===== src/Programs/Worker.antt =====
-- cmd/worker/main.go `main`.
use email_proxy.Prelude.{ℕ, none, some}
use email_proxy.Prelude.Results.{ok, err}
use email_proxy.Services.{Env, World}
use email_proxy.Amqp.{Amqp}
use email_proxy.Keydb.Connect.{Redis, new_keydb_service, close_keydb_service}
use email_proxy.Worker.Start.{Schedule, failure_of, until_signal, until_cleanup, until_exit}
use email_proxy.Programs.{
  Machine, Exit, database, keydb, serving, fatal, finished, Gorm, Pool, an_hour, init_database,
  Meanwhile,
}

abbrev pub worker_pool : Pool
worker_pool = record { max_idle = 5; max_open = 50; lifetime = an_hour }

module _ (e : Env) (a : Amqp) (k : Redis) where
  -- What stands outside: the database, how far Start comes in its goroutine until the signal, the
  -- cleanup and the end of the process, what the goroutines, if Start has begun them, make of the
  -- services, and the connections during the wait of GracefulShutdown.
  pub record WorkerRun : Type 0 where
    pub gorm : Gorm
    pub schedule : Schedule
    pub working : World e.services → World e.services
    pub meanwhile : Meanwhile a k

  -- An error of Start ends the process at once, whether main waits for the signal or shuts down.
  unfoldable pub consumer_main : WorkerRun → k.State → ℕ → Machine e a k → Machine e a k × Exit
  consumer_main r redis client m =
      let (at_signal, s) = until_signal a e.config r.schedule m.amqp in
      let (at_cleanup, s') = until_cleanup a e.config r.schedule r.meanwhile.amqp m.amqp in
      let (at_exit, s'') = until_exit a e.config r.schedule r.meanwhile.amqp m.amqp in
      elim (failure_of at_signal) [
        | some cause ↦ (record m { redis = redis; amqp = s }, fatal serving cause)
        | none ↦ elim (failure_of at_cleanup) [
          | some cause ↦ (record m { redis = redis; amqp = s' }, fatal serving cause)
          | none ↦ elim (failure_of at_exit) [
            | some cause ↦ (record m { redis = redis; amqp = s'' }, fatal serving cause)
            | none ↦ (
              record {
                world = r.working m.world;
                amqp = s'';
                redis = close_keydb_service k client (r.meanwhile.redis redis);
              },
              finished,
            )
          ]
        ]
      ]

  unfoldable pub worker_main : WorkerRun → Machine e a k → Machine e a k × Exit
  worker_main r m = elim (init_database r.gorm e.config worker_pool) [
    | err cause ↦ (m, fatal database cause)
    | ok pool ↦
        let (redis, keydb_service) = new_keydb_service k e.config m.redis in
        elim keydb_service [
          | err cause ↦ (record m { redis = redis }, fatal keydb cause)
          | ok client ↦ consumer_main r redis client m
        ]
  ]
