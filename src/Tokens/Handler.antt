-- ===== src/Tokens/Handler.antt =====
-- internal/api/handlers/auth_handler.go: creation, listing and revocation of the clients' tokens.
use email_proxy.Prelude.{ℕ, true, ◌++◌, List, Option, none, some, take, ◌==◌, if◌then◌else◌}
use email_proxy.Prelude.Results.{Result, ok, err}
use email_proxy.Text.{Text, text}
use email_proxy.Models.{ClientToken}
use email_proxy.Services.{Env, World}
use email_proxy.Api.{Response, failure, token_created, token_found, token_list, token_revoked}
use email_proxy.Tokens.{JwtClaims, Crypto, Fresh}

pub record CreateTokenRequest : Type 0 where
  pub client_name : Text
  pub department : Text
  pub permissions : List Text

-- The first eight characters of a UUID behind "client_".
unfoldable pub new_client_id : Text → Text
new_client_id uuid = text "client_" ++ take 8 uuid

unfoldable pub new_claims : Fresh → CreateTokenRequest → JwtClaims
unfolding new_client_id
new_claims fresh req = record {
  issuer = text "mail-proxy-system";
  subject = fresh.subject;
  issued_at = fresh.unix;
  client_id = new_client_id fresh.client;
  client_name = req.client_name;
  department = req.department;
  permissions = req.permissions;
}

unfoldable pub new_token : Fresh → CreateTokenRequest → Text → ClientToken
unfolding new_client_id
new_token fresh req hash = record {
  id = fresh.row;
  client_id = new_client_id fresh.client;
  client_name = req.client_name;
  department = req.department;
  permissions = req.permissions;
  token_hash = hash;
  revoked_at = none;
  is_active = true;
}

module _ (e : Env) where
  -- The part of CreateToken after the token has been signed.
  unfoldable pub store_new_token :
      Fresh → CreateTokenRequest → Text → Text → World e.services → World e.services × Response
  store_new_token fresh req hash token w =
      let (db, error) = e.services.create_token (new_token fresh req hash) w.db in
      (
        record w { db = db },
        elim error [
          | some _ ↦ failure 500 (text "database_error") (text "Failed to save token")
          | none ↦ token_created token (new_client_id fresh.client)
        ],
      )

  -- `CreateToken`; the request is what ShouldBindJSON made of the body.
  unfoldable pub create_token :
      Crypto → Fresh → Result CreateTokenRequest → World e.services → World e.services × Response
  create_token crypto fresh (err cause) w = (w, failure 400 (text "validation_error") cause)
  create_token crypto fresh (ok req) w =
      elim (crypto.sign (new_claims fresh req) e.config.jwt_secret) [
        | err _ ↦ (w, failure 500 (text "token_generation_error") (text "Failed to generate token"))
        | ok token ↦ store_new_token fresh req (crypto.sha256_hex token) token w
      ]

  -- The UUID of the second half of a query, if the parameter of the path is one.
  unfoldable pub uuid_of : Text → Option Text
  uuid_of token_id = elim (e.platform.parse_uuid token_id) [ ok id ↦ some id | err _ ↦ none ]

  unfoldable pub get_token : Text → World e.services → Response
  get_token token_id w = elim (e.services.first_named_token token_id (uuid_of token_id) w.db) [
    | err _ ↦ failure 404 (text "not_found") (text "Token not found")
    | ok token ↦ token_found token
  ]

  -- `RevokeToken`, at the time `now`; the error of the update is not read.
  unfoldable pub revoke_token : ℕ → Text → World e.services → World e.services × Response
  revoke_token now token_id w =
      let (db, rows) = e.services.revoke_tokens token_id (uuid_of token_id) now w.db in
      (
        record w { db = db },
        if rows == 0
            then failure 404 (text "not_found") (text "Token not found")
            else token_revoked,
      )

  -- `ListTokens`; the error of the query is not read.
  unfoldable pub list_tokens : World e.services → Response
  list_tokens w = token_list (e.services.all_tokens w.db)
