-- ===== src/Programs/Leaves.antt =====
-- Which connections the SMTP receiver leaves open.
use email_proxy.Prelude.{◌≡◌, ◌≢◌, refl, arith, none, some, inl, inr, Option-cases}
use email_proxy.Prelude.Results.{Result-cases}
use email_proxy.Services.{Env, World}
use email_proxy.Amqp.{Amqp, OpensAtMost}
use email_proxy.Keydb.Connect.{Redis, new_keydb_service}
use email_proxy.Queue.Connect.{new_queue_service}
use email_proxy.Queue.Connect.Laws.{close_queue_service-new}
use email_proxy.Smtp.Server.{start_server}
use email_proxy.Config.{Config}
use email_proxy.Programs.{Gorm, Machine, Exit, finished}
use email_proxy.Programs.Receiver.{ReceiverRun, init_and_migrate, receiver_main}
use email_proxy.Programs.Closes.{IsQuiet}

module _ (e : Env) (a : Amqp) (k : Redis) (m : Machine e a k) where
  -- A receiver that returned has received, has closed its connection to RabbitMQ, and has left the clients
  -- of KeyDB as they are.
  pub record LeavesClient (received : World e.services) (redis : k.State)
      (end : Machine e a k × Exit) : Type 0 where
    pub has_received : end.1 ≡ finished → end.0.world ≡ received
    pub closes_queue : end.1 ≡ finished → OpensAtMost a none m.amqp end.0.amqp
    pub leaves_client : end.1 ≡ finished → end.0.redis ≡ redis

  never_returns :
      (received : World e.services) (redis : k.State) (m' : Machine e a k) (exit : Exit)
      → exit ≢ finished
      → LeavesClient received redis (m', exit)
  never_returns received redis m' exit other = record {
    has_received = λ h. absurd (other h);
    closes_queue = λ h. absurd (other h);
    leaves_client = λ h. absurd (other h);
  }

  migration_is_fatal :
      (gorm : Gorm) (cfg : Config) (exit : Exit)
      → init_and_migrate gorm cfg ≡ some exit
      → exit ≢ finished
  unfolding init_and_migrate
  migration_is_fatal gorm cfg exit h done = ground arith

  -- If nothing opens a connection meanwhile, the receiver closes its connection to RabbitMQ when it returns,
  -- and never its client of KeyDB, which is left as it was while the receiver served.
  pub receiver_main-LeavesClient :
      (r : ReceiverRun e a k)
      → IsQuiet r.meanwhile
      → LeavesClient
          (r.receiving m.world)
          (r.meanwhile.redis (new_keydb_service k e.config m.redis).0)
          (receiver_main e a k r m)
  unfolding receiver_main
  receiver_main-LeavesClient r quiet = elim (Option-cases (init_and_migrate r.gorm e.config)) [
    | inr (exit, bad) ↦
        rw (bad, receiver_main)
          (never_returns _ _ _ _ (migration_is_fatal r.gorm e.config exit bad))
    | inl fine ↦ elim (Result-cases (new_keydb_service k e.config m.redis).1) [
      | inr (cause, bad) ↦ rw (fine, bad, receiver_main) (never_returns _ _ _ _ (λ h. cc))
      | inl (client, made) ↦ elim (Result-cases (new_queue_service a e.config m.amqp).1) [
        | inr (cause, bad) ↦ rw (fine, made, bad, receiver_main) (never_returns _ _ _ _ (λ h. cc))
        | inl (q, connected) ↦ elim (Option-cases (start_server r.listen_and_serve e.config)) [
          | inr (cause, bad) ↦
              rw (fine, made, connected, bad, receiver_main) (never_returns _ _ _ _ (λ h. cc))
          | inl none_failed ↦
              rw (fine, made, connected, none_failed, receiver_main)
                (record {
                  has_received = λ h. refl;
                  closes_queue = λ h.
                      close_queue_service-new a e.config m.amqp _ q connected (quiet.amqp_quiet _);
                  leaves_client = λ h. refl;
                })
        ]
      ]
    ]
  ]
