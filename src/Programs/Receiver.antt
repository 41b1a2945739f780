-- ===== src/Programs/Receiver.antt =====
-- cmd/smtp-receiver/main.go `main`.
use email_proxy.Prelude.{true, Option, none, some}
use email_proxy.Prelude.Results.{ok, err}
use email_proxy.Text.{Text}
use email_proxy.Config.{Config}
use email_proxy.Services.{Env, World}
use email_proxy.Amqp.{Amqp}
use email_proxy.Keydb.Connect.{Redis, new_keydb_service}
use email_proxy.Queue.Connect.{new_queue_service, close_queue_service}
use email_proxy.Smtp.{Session}
use email_proxy.Smtp.Server.{ServerSettings, start_server}
use email_proxy.Programs.{
  Machine, Exit, database, migration, keydb, rabbitmq, serving, fatal, finished, Gorm, Meanwhile,
}

-- `initDatabase`: it ends the program by itself if it fails.
unfoldable pub init_and_migrate : Gorm → Config → Option Exit
init_and_migrate gorm cfg = elim (gorm.connect true cfg.database_url) [
  | some cause ↦ some (fatal database cause)
  | none ↦ elim gorm.auto_migrate [ some cause ↦ some (fatal migration cause) | none ↦ none ]
]

module _ (e : Env) (a : Amqp) (k : Redis) where
  -- What stands outside: the database, go-smtp, what its sessions make of the services, and the
  -- connections meanwhile.
  pub record ReceiverRun : Type 0 where
    pub gorm : Gorm
    pub listen_and_serve : ServerSettings → (Text → Session) → Option Text
    pub receiving : World e.services → World e.services
    pub meanwhile : Meanwhile a k

  -- The client of KeyDB is never closed.
  unfoldable pub receiver_main : ReceiverRun → Machine e a k → Machine e a k × Exit
  receiver_main r m = elim (init_and_migrate r.gorm e.config) [
    | some exit ↦ (m, exit)
    | none ↦
        let (redis, keydb_service) = new_keydb_service k e.config m.redis in
        elim keydb_service [
          | err cause ↦ (record m { redis = redis }, fatal keydb cause)
          | ok client ↦
              let (amqp, queue) = new_queue_service a e.config m.amqp in
              elim queue [
                | err cause ↦ (record m { redis = redis; amqp = amqp }, fatal rabbitmq cause)
                | ok queue_service ↦
                    let received = r.receiving m.world in
                    let amqp' = r.meanwhile.amqp amqp in
                    let redis' = r.meanwhile.redis redis in
                    elim (start_server r.listen_and_serve e.config) [
                      | some cause ↦ (
                        record { world = received; amqp = amqp'; redis = redis' },
                        fatal serving cause,
                      )
                      | none ↦ (
                        record {
                          world = received;
                          amqp = (close_queue_service a queue_service amqp').0;
                          redis = redis';
                        },
                        finished,
                      )
                    ]
              ]
        ]
  ]
