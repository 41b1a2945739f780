-- ===== src/Api/Mails/States.antt =====
-- internal/api/handlers/mail_handler.go: GetStatus and Cancel.
use email_proxy.Prelude.{[]}
use email_proxy.Prelude.Results.{ok, err}
use email_proxy.Text.{Text, text}
use email_proxy.Models.{Mail, queued, cancelled, set_status_column}
use email_proxy.Services.{Env, World}
use email_proxy.Keydb.{set_status, get_status}
use email_proxy.Api.{Response, failure, mail_cancelled, status_cached, status_stored}

module _ (e : Env) where
  -- `GetStatus`: the cache is asked first.
  unfoldable pub status_of : Text → World e.services → Response
  status_of mail_id w = elim (get_status e mail_id w) [
    | ok cached ↦ status_cached cached
    | err _ ↦ elim (e.services.first_mail mail_id w.db) [
      | ok m ↦ status_stored m
      | err _ ↦ failure 404 (text "not_found") (text "Mail not found")
    ]
  ]

  unfoldable pub cancel_found : Text → Text → Mail → World e.services → World e.services × Response
  cancel_found stamp mail_id m w = elim m.status [
    | queued ↦
        let db = (e.services.update_mail m.id (set_status_column cancelled) w.db).0 in
        (
          (set_status e stamp mail_id (text "cancelled") 0 [] (record w { db = db })).0,
          mail_cancelled mail_id,
        )
    | _ ↦ (w, failure 400 (text "cannot_cancel") (text "Only queued mails can be cancelled"))
  ]

  -- `Cancel`, for the client id that JWTAuth has stored.
  unfoldable pub cancel : Text → Text → Text → World e.services → World e.services × Response
  cancel stamp client_id mail_id w = elim (e.services.first_mail_of mail_id client_id w.db) [
    | err _ ↦ (w, failure 404 (text "not_found") (text "Mail not found"))
    | ok m ↦ cancel_found stamp mail_id m w
  ]
