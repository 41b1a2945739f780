-- ===== src/Programs.antt =====
-- cmd/api/main.go, cmd/worker/main.go and cmd/smtp-receiver/main.go: what the three programs have in
-- common.
pub mod Api
pub mod Worker
pub mod Receiver
pub mod Closes
pub mod WorkerCloses
pub mod Leaves
use email_proxy.Prelude.{ℕ, ◌*◌, Bool, Option, none, some}
use email_proxy.Prelude.Results.{Result, ok, err}
use email_proxy.Text.{Text, text, text_eq}
use email_proxy.Config.{Config}
use email_proxy.Services.{Env, World}
use email_proxy.Amqp.{Amqp}
use email_proxy.Keydb.Connect.{Redis}

-- What a program works on: the services, and its connections.
pub record Machine (e : Env) (a : Amqp) (k : Redis) : Type 0 where
  pub world : World e.services
  pub amqp : a.State
  pub redis : k.State

-- What a program could not do when it ended in log.Fatalf.
pub data Task : Type 0 where
  database migration keydb rabbitmq serving : Task

-- The process ends in log.Fatalf with an error, which runs no deferred call, or main returns.
pub data Exit : Type 0 where
  fatal : Task → Text → Exit
  finished : Exit

-- gorm on PostgreSQL: opening with a silent logger or not, the handle for the pool, and AutoMigrate.
pub record Gorm : Type 0 where
  pub connect : Bool → Text → Option Text
  pub handle : Option Text
  pub auto_migrate : Option Text

-- The limits of the connection pool; the time is in nanoseconds.
pub record Pool : Type 0 where
  pub max_idle : ℕ
  pub max_open : ℕ
  pub lifetime : ℕ

abbrev pub an_hour : ℕ
an_hour = 3600 * 1000000000

-- `initDatabase` of the API and of the worker, which set different limits.
unfoldable pub init_database : Gorm → Config → Pool → Result Pool
init_database gorm cfg pool =
    elim (gorm.connect (text_eq cfg.env (text "production")) cfg.database_url) [
      | some cause ↦ err cause
      | none ↦ elim gorm.handle [ some cause ↦ err cause | none ↦ ok pool ]
    ]

-- What happens to the connections while a program serves.
pub record Meanwhile (a : Amqp) (k : Redis) : Type 0 where
  pub amqp : a.State → a.State
  pub redis : k.State → k.State
