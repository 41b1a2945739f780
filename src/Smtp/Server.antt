-- ===== src/Smtp/Server.antt =====
-- internal/smtp/server.go and internal/smtp/backend.go: the server and its settings. go-smtp, which
-- listens, is a parameter.
use email_proxy.Prelude.{ℕ, ◌*◌, ◌%◌, ◌^◌, Bool, true, ◌++◌, Option, none, some}
use email_proxy.Text.{Text, text}
use email_proxy.Config.{Config}
use email_proxy.Smtp.{Session, new_session}

-- The fields of gosmtp.Server that Start sets. Times are in nanoseconds; the size is the bit pattern of
-- an int64.
pub record ServerSettings : Type 0 where
  pub addr : Text
  pub domain : Text
  pub read_timeout : ℕ
  pub write_timeout : ℕ
  pub max_message_bytes : ℕ
  pub max_recipients : ℕ
  pub allow_insecure_auth : Bool

unfoldable pub server_settings : Config → ServerSettings
server_settings cfg = record {
  addr = text ":" ++ cfg.smtp_inbound_port;
  domain = text "mail-proxy.local";
  read_timeout = 30 * 1000000000;
  write_timeout = 30 * 1000000000;
  max_message_bytes = cfg.smtp_max_message_size * 1024 * 1024 % 2 ^ 64;
  max_recipients = 50;
  allow_insecure_auth = true;
}

-- `Backend.NewSession`: every connection has a session of its own.
unfoldable pub backend_new_session : Text → Session
backend_new_session hostname = new_session

-- `Start`: the error of ListenAndServe with these settings and this backend, wrapped.
unfoldable pub start_server :
    (ServerSettings → (Text → Session) → Option Text) → Config → Option Text
start_server listen_and_serve cfg =
    elim (listen_and_serve (server_settings cfg) backend_new_session) [
      | none ↦ none
      | some cause ↦ some (text "SMTP server error: " ++ cause)
    ]
