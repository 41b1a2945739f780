-- ===== src/Keydb.antt =====
-- internal/services/keydb_service.go: the status of a mail, cached under its id.
pub mod Connect
pub mod Laws
use email_proxy.Prelude.{ℕ, ◌++◌, Option}
use email_proxy.Prelude.Results.{Result, ok, err}
use email_proxy.Text.{Text, text}
use email_proxy.Models.{MailStatusCache}
use email_proxy.Services.{Env, World, found, missing, unavailable}

unfoldable pub status_key : Text → Text
status_key mail_id = text "mail:status:" ++ mail_id

-- What SetStatus stores; `now` is the formatted time.
unfoldable pub new_status : Text → Text → Text → ℕ → Text → MailStatusCache
new_status now mail_id status retry_count error_message = record {
  mail_id = mail_id;
  status = status;
  retry_count = retry_count;
  last_updated = now;
  error_message = error_message;
}

-- What GetStatus makes of the stored text.
unfoldable pub read_status : (Text → Result MailStatusCache) → Text → Result MailStatusCache
read_status unmarshal stored = elim (unmarshal stored) [
  | ok status ↦ ok status
  | err e ↦ err (text "failed to unmarshal status: " ++ e)
]

module _ (e : Env) where
  unfoldable pub set_status :
      Text → Text → Text → ℕ → Text → World e.services → World e.services × Option Text
  set_status now mail_id status retry_count error_message w =
      let (cache, error) =
        e.services.redis_set (status_key mail_id)
          (e.platform.marshal_status (new_status now mail_id status retry_count error_message))
          e.config.keydb_status_ttl w.cache in
      (record w { cache = cache }, error)

  unfoldable pub get_status : Text → World e.services → Result MailStatusCache
  get_status mail_id w = elim (e.services.redis_get (status_key mail_id) w.cache) [
    | found stored ↦ read_status e.platform.unmarshal_status stored
    | missing ↦ err (text "status not found")
    | unavailable cause ↦ err (text "failed to get status: " ++ cause)
  ]
