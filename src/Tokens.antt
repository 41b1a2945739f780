-- ===== src/Tokens.antt =====
-- The tokens of the API's clients: internal/api/handlers/auth_handler.go (Tokens/Handler) and
-- internal/services/admin_token_service.go (Tokens/Admin). Signing and hashing are parameters.
pub mod Handler
pub mod Admin
pub mod Issued
pub mod Revoked
pub mod Revived
use email_proxy.Prelude.{ℕ, List}
use email_proxy.Prelude.Results.{Result}
use email_proxy.Text.{Text}

-- The claims that are signed.
pub record JwtClaims : Type 0 where
  pub issuer : Text
  pub subject : Text
  pub issued_at : ℕ
  pub client_id : Text
  pub client_name : Text
  pub department : Text
  pub permissions : List Text

-- Signing with HS256 and a key, and the hexadecimal SHA-256 of a text.
pub record Crypto : Type 0 where
  pub sign : JwtClaims → Text → Result Text
  pub sha256_hex : Text → Text

-- What is new in one call: three UUIDs and the time in seconds.
pub record Fresh : Type 0 where
  pub client : Text
  pub subject : Text
  pub row : Text
  pub unix : ℕ
