-- ===== src/Smtp.antt =====
-- internal/smtp/session.go and internal/smtp/backend.go: the commands of an SMTP session.
pub mod Mime
pub mod Parts
pub mod Laws
pub mod Save
pub mod Paths
pub mod Receive
pub mod Intake
pub mod Server
pub mod Transactions
use email_proxy.Prelude.{Bool, true, List, [], ◌∷◌, ◌++◌, Option, none, some, any, if◌then◌else◌}
use email_proxy.Text.{Text, text, text_eq, clean_email}
use email_proxy.Router.{in_domain}
use email_proxy.Services.{Env}

-- The sender and the recipients that the client has named.
pub record Session : Type 0 where
  pub from : Text
  pub to : List Text

unfoldable pub new_session : Session
new_session = record { from = []; to = [] }

-- `Reset`
unfoldable pub reset : Session → Session
reset s = record { from = []; to = [] }

module _ (e : Env) where
  unfoldable pub auth_plain : Text → Text → Option Text
  auth_plain username password =
      if e.config.smtp_auth_required
      then (if text_eq password e.config.jwt_secret
          then none
          else some (text "invalid credentials"))
      else none

  -- Whether the list of domains admits a sender. An empty list admits all.
  unfoldable pub is_allowed : List Text → Text → Bool
  is_allowed [] from = true
  is_allowed (d ∷ ds) from = any (in_domain e.platform.unicode_lower from) (d ∷ ds)

  -- MAIL FROM
  unfoldable pub mail : Text → Session → Session × Option Text
  unfolding is_allowed
  mail from s =
      let sender = clean_email from in
      if is_allowed e.config.smtp_allowed_domains sender
      then (record s { from = sender }, none)
      else (s, some (text "sender domain not allowed: " ++ sender))

-- RCPT TO
unfoldable pub rcpt : Text → Session → Session × Option Text
rcpt to s = (record s { to = s.to ++ clean_email to ∷ [] }, none)
