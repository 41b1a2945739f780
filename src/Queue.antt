-- ===== src/Queue.antt =====
-- internal/services/queue_service.go: the messages that the API and the SMTP receiver publish.
-- A job has no value that JSON cannot hold, so json.Marshal does not fail.
pub mod Topology
pub mod Connect
use email_proxy.Prelude.{ℕ, true, List, [], ◌∷◌, Option}
use email_proxy.Text.{Text, text}
use email_proxy.Models.{MailJob}
use email_proxy.Services.{Env, World, Publishing}

-- A persistent JSON message.
abbrev pub json_message : Text → List (Text × ℕ) → Text → Publishing
json_message queue headers body = record {
  routing_key = queue;
  persistent = true;
  content_type = text "application/json";
  headers = headers;
  body = body;
}

module _ (e : Env) where
  unfoldable pub publish : Publishing → World e.services → World e.services × Option Text
  publish message w =
      let (broker, error) = e.services.publish message w.broker in
      (record w { broker = broker }, error)

  unfoldable pub publish_mail : MailJob → World e.services → World e.services × Option Text
  unfolding publish
  publish_mail job = publish (json_message e.config.mail_queue_name [] (e.platform.marshal_job job))

  unfoldable pub publish_retry : MailJob → ℕ → World e.services → World e.services × Option Text
  unfolding publish
  publish_retry job delay_ms = publish (
      json_message e.config.retry_queue_name
        ((text "x-retry-count", job.retry_count) ∷ (text "x-delay", delay_ms) ∷ [])
        (e.platform.marshal_job job))

  unfoldable pub publish_failed : MailJob → World e.services → World e.services × Option Text
  unfolding publish
  publish_failed job =
      publish (json_message e.config.failed_queue_name [] (e.platform.marshal_job job))
