-- ===== src/Programs/WorkerCloses.antt =====
-- Which connections the worker leaves open.
use email_proxy.Prelude.{ℕ, ◌≡◌, ◌⊎◌, refl, sym, ap, ◌∙◌, none, inl, inr, arith}
use email_proxy.Prelude.Results.{Result-cases, ok}
use email_proxy.Services.{Env}
use email_proxy.Amqp.{Amqp, OpensAtMost}
use email_proxy.Keydb.Connect.{
  Redis, new_keydb_service, OpensNothing, close_keydb_service, close_keydb_service-new,
}
use email_proxy.Worker.Start.{dialling, consumer_of, until_cleanup, until_exit}
use email_proxy.Worker.Start.Laws.{until_exit-OpensAtMost}
use email_proxy.Programs.{Machine, finished, init_database}
use email_proxy.Programs.Worker.{WorkerRun, worker_pool, consumer_main, worker_main}
use email_proxy.Programs.Closes.{IsQuiet}

module _ (e : Env) (a : Amqp) (k : Redis) (m : Machine e a k) (r : WorkerRun e a k) where
  abbrev exit_state : a.State
  exit_state = (until_exit a e.config r.schedule r.meanwhile.amqp m.amqp).1

  consumer_main_returns :
      (redis : k.State) (client : ℕ)
      → (consumer_main e a k r redis client m).1 ≡ finished
      → (consumer_main e a k r redis client m).0 ≡ record {
        world = r.working m.world;
        amqp = exit_state;
        redis = close_keydb_service k client (r.meanwhile.redis redis);
      }
  unfolding consumer_main
  consumer_main_returns redis client done = ground arith

  worker_main_returns :
      (worker_main e a k r m).1 ≡ finished
      → (client : ℕ) × ((new_keydb_service k e.config m.redis).1 ≡ ok client)
        × ((worker_main e a k r m).0 ≡ record {
          world = r.working m.world;
          amqp = exit_state;
          redis =
              close_keydb_service k client
                (r.meanwhile.redis (new_keydb_service k e.config m.redis).0);
        })
  unfolding worker_main
  worker_main_returns done = elim (Result-cases (init_database r.gorm e.config worker_pool)) [
    | inr (cause, bad) ↦ absurd (ground arith)
    | inl (pool, fine) ↦ elim (Result-cases (new_keydb_service k e.config m.redis).1) [
      | inr (cause, bad) ↦ absurd (ground arith)
      | inl (client, made) ↦
          let redis = (new_keydb_service k e.config m.redis).0 in
          let same : worker_main e a k r m ≡ consumer_main e a k r redis client m =
            rw (worker_main, fine, made) refl in
          (
            client,
            made,
            ap (λ x. x.0) same
                ∙ consumer_main_returns redis client (sym (ap (λ x. x.1) same) ∙ done),
          )
    ]
  ]

  -- If nothing else opens a connection meanwhile, a worker that returns has done its work, and no
  -- client of KeyDB is open that was not open before, wherever Start is when the signal comes. No
  -- connection to RabbitMQ is open that was not open before either, or Start had no connection yet
  -- when GracefulShutdown closed it, and at most the one that Start then dialled is open.
  pub worker_main_closes :
      IsQuiet r.meanwhile
      → (worker_main e a k r m).1 ≡ finished
      → let end = (worker_main e a k r m).0 in
        let at_cleanup = until_cleanup a e.config r.schedule r.meanwhile.amqp m.amqp in
        let at_exit = until_exit a e.config r.schedule r.meanwhile.amqp m.amqp in
        (end.world ≡ r.working m.world)
        × OpensNothing k m.redis end.redis
        × (OpensAtMost a none m.amqp end.amqp
            ⊎ ((at_cleanup.0 ≡ dialling)
                × OpensAtMost a (consumer_of at_exit.0).conn m.amqp end.amqp))
  worker_main_closes quiet done =
      let (client, made, same) = worker_main_returns done in
      rw (same) (
        refl,
        close_keydb_service-new k e.config m.redis _ client made (quiet.redis_quiet _),
        until_exit-OpensAtMost a e.config r.schedule r.meanwhile.amqp quiet.amqp_quiet m.amqp,
      )
