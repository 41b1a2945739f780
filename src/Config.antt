-- ===== src/Config.antt =====
-- internal/config/config.go `Config`: the settings. A size or count is a natural number, as its
-- default is; times are in nanoseconds.
pub mod Load
use email_proxy.Prelude.{ℕ, Bool, List}
use email_proxy.Text.{Text}

pub record Config : Type 0 where
  pub env : Text
  pub api_port : Text
  pub database_url : Text
  pub rabbitmq_url : Text
  pub mail_queue_name : Text
  pub retry_queue_name : Text
  pub failed_queue_name : Text
  pub max_retry_count : ℕ
  pub keydb_url : Text
  pub keydb_password : Text
  pub keydb_status_ttl : ℕ
  pub microsoft_tenant_id : Text
  pub microsoft_client_id : Text
  pub microsoft_client_secret : Text
  pub sendgrid_api_key : Text
  pub org_email_domain : Text
  pub attachment_path : Text
  pub max_attachment_size_mb : ℕ
  pub worker_concurrency : ℕ
  pub worker_prefetch : ℕ
  pub jwt_secret : Text
  pub encryption_key : Text
  pub init_admin_token : Bool
  pub admin_token_name : Text
  pub smtp_inbound_port : Text
  pub smtp_inbound_tls_port : Text
  pub smtp_tls_enabled : Bool
  pub smtp_auth_required : Bool
  pub smtp_allowed_domains : List Text
  pub smtp_max_message_size : ℕ
