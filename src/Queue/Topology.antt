-- ===== src/Queue/Topology.antt =====
-- internal/services/queue_service.go: the queues that the API and the SMTP receiver declare. The
-- channel is a parameter.
use email_proxy.Prelude.{List, [], ◌∷◌, ◌++◌, Option, none, some}
use email_proxy.Text.{Text, text}
use email_proxy.Config.{Config}

-- A call of ExchangeDeclare, QueueDeclare or QueueBind. Exchanges and queues are durable, and no other
-- flag is set.
pub data Declaration : Type 0 where
  exchange : (name kind : Text) → Declaration
  queue : (name : Text) (dead_letter_exchange : Option Text) → Declaration
  binding : (queue_name key exchange_name : Text) → Declaration

abbrev pub mail_queue : Config → Declaration
mail_queue cfg = queue cfg.mail_queue_name (some (text "dlx"))

-- The declarations, with what the error of each is wrapped in.
unfoldable pub declarations : Config → List (Declaration × Text)
declarations cfg =
    (exchange (text "dlx") (text "direct"), text "failed to declare DLX: ")
    ∷ (mail_queue cfg, text "failed to declare mail queue: ")
    ∷ (queue cfg.retry_queue_name none, text "failed to declare retry queue: ")
    ∷ (queue cfg.failed_queue_name none, text "failed to declare failed queue: ")
    ∷ (
      binding cfg.failed_queue_name (text "failed") (text "dlx"),
      text "failed to bind failed queue: ",
    )
    ∷ []

module _ {Channel : Type 0} (declare : Declaration → Channel → Channel × Option Text) where
  -- One call after the other, until one fails.
  unfoldable pub declare_all : List (Declaration × Text) → Channel → Channel × Option Text
  declare_all [] c = (c, none)
  declare_all ((d, message) ∷ rest) c =
      let (c', error) = declare d c in
      let others = declare_all rest c' in
      elim error [ some cause ↦ (c', some (message ++ cause)) | none ↦ others ]

  unfoldable pub declare_queues : Config → Channel → Channel × Option Text
  unfolding declarations declare_all
  declare_queues cfg = declare_all (declarations cfg)
