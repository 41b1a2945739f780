-- ===== src/Lib.antt =====
-- The mail proxy: what its parts do, over models of the services that it calls.
--
-- The program is three processes over one database, one cache and one message broker. The API
-- (cmd/api) and the SMTP receiver (cmd/smtp-receiver) turn a request or a message into a row of the
-- table of mails, a message of the mail queue, and a cached status. The worker (cmd/worker) takes the
-- messages, sends each mail through Microsoft Graph or SendGrid, and stores the outcome; what is
-- refused is published again after a delay, until a limit.
--
-- Files, and the code each is about (paths from the repository's root):
--   Models             internal/models/*.go: rows and messages
--   Config             internal/config/config.go: the settings, and Load (Config/Load)
--   Services           PostgreSQL behind gorm, KeyDB, RabbitMQ, the file system, JSON, UUIDs, base64
--                      and AES-GCM: parameters with laws, since none of them is in the repository
--   Text, FilePath     the functions of strings and path/filepath that the code calls, on bytes, and
--                      cleanEmail of internal/smtp/session.go
--   Keydb              internal/services/keydb_service.go: SetStatus, GetStatus, and NewKeyDBService
--                      and Close over the client of KeyDB (Keydb/Connect)
--   Queue              internal/services/queue_service.go: PublishMail, PublishRetry, PublishFailed,
--                      declareQueues (Queue/Topology), and NewQueueService and Close (Queue/Connect)
--   Amqp               the client of RabbitMQ, a parameter with laws on which connections are open
--   Encryption         internal/services/encryption.go
--   Router             internal/services/mail_router.go, internal/services/mail_sender.go
--   SenderConfig       internal/services/email_sender_config_service.go
--   Worker             internal/worker/consumer.go: handleMessage is begin, attempt and complete;
--                      handleRetry is handle_retry; Worker/System is Start's goroutines, the sleeping
--                      goroutines of handleRetry and GracefulShutdown as a step relation, and
--                      Worker/System/Closing is the wait of GracefulShutdown;
--                      Worker/Delivery is one mail from its first attempt to its last, with a
--                      specification of its row (Worker/Delivery/Spec); Worker/Start is Start, in
--                      steps, since it runs beside main, and what GracefulShutdown does to the
--                      connection; Worker/System/Crashes adds
--                      processes that die to the step relation
--   Senders            internal/services/smtp_service.go (Senders/Graph), sendgrid_service.go
--                      (Senders/Sendgrid), and what cmd/worker and cmd/api build from the settings
--                      (Senders/Process)
--   Tokens             internal/api/handlers/auth_handler.go (Tokens/Handler) and
--                      internal/services/admin_token_service.go (Tokens/Admin)
--   Smtp               internal/smtp/session.go: the commands (Smtp), parseMailData (Smtp/Mime,
--                      Smtp/Save, Smtp/Receive) and Data (Smtp/Receive), and a client's transaction
--                      (Smtp/Transactions); internal/smtp/server.go and backend.go (Smtp/Server)
--   Api                internal/api/middlewares/auth.go (Api/Auth); internal/api/handlers:
--                      mail_handler.go (Api/Attachments, Api/Mails, and GetHistory in Api/Status),
--                      sender_config_handler.go (Api/Configs), health_handler.go (Api/Status);
--                      internal/api/routes/routes.go (Api/Routes)
--   Oauth              pkg/microsoft/oauth.go: the cache of access tokens
--   Programs           cmd/api/main.go, cmd/worker/main.go and cmd/smtp-receiver/main.go: each program
--                      from its start to a signal or to log.Fatalf
--   EndToEnd           a mail of the API and a message of the SMTP receiver until the worker is done
--                      with it
--   Tests              services held in functions, and the theorems applied to concrete values
--
-- State is passed explicitly: World holds what the four services hold. A service is read by a view,
-- and a law says what a call without an error did. IsReliable says that no call fails; a theorem that
-- needs it has it as a hypothesis. A call that returns a value and an error is a Result; one that
-- returns an error alone is an Option, none being nil. A panic is a value too. Times, UUIDs and random
-- bytes are arguments.
--
-- Numbers are natural numbers: counts and sizes of the code are never negative, and settings that are
-- negative are outside of the model. The delay of a retry, the lifetime of a token, the limit of a
-- message, the time to live of a cached status, and the page, the limit and the offset of a history
-- are the bit patterns of their int64. Three loops run on fuel. The one over the parts of a message
-- has no bound in the code: any number above the number of calls of NextPart that the message takes is
-- enough. The rounds of a mail end within as many as MAX_RETRY_COUNT leaves it, and one at least. The
-- wait of GracefulShutdown ends with its timeout.
--
-- A program works on a Machine: the services, and the states of the clients of RabbitMQ and KeyDB. What
-- happens while it serves is an argument: the requests of the API, what the other two make of the
-- services, and what becomes of the connections meanwhile.
--
-- Not modelled, since it is input and output or belongs to a library: sockets, TLS, signals, logging,
-- the matching of a path to its route by gin, the binding of a request's JSON, and the client
-- libraries of PostgreSQL, KeyDB, RabbitMQ, HTTP and SendGrid and go-smtp, which are parameters. The
-- requests of a program are handled one after the other; the goroutines of the worker are interleaved,
-- and so are Cancel and a handler in Api/Mails/Races. The 30 seconds of GracefulShutdown are an event
-- at some time. A call of the database, the cache or the broker is one atomic step; database/sql's
-- connections and contexts are left out. The library's columns CreatedAt and UpdatedAt are left out
-- too, and so are the logs of the API, which no code writes.
pub mod Prelude
pub mod Text
pub mod FilePath
pub mod Models
pub mod Services
pub mod Config
pub mod Keydb
pub mod Queue
pub mod Encryption
pub mod Router
pub mod SenderConfig
pub mod Amqp
pub mod Worker
pub mod Oauth
pub mod Senders
pub mod Tokens
pub mod EndToEnd
mod Tests
pub mod Smtp
pub mod Api
pub mod Programs
