-- ===== src/Tokens/Admin.antt =====
-- internal/services/admin_token_service.go: the token of the administrator at the start of the API.
-- What it prints is left out.
use email_proxy.Prelude.{true, not, [], ◌∷◌, Option, none, some, if◌then◌else◌}
use email_proxy.Prelude.Results.{Result, ok, err}
use email_proxy.Text.{Text, text}
use email_proxy.Models.{ClientToken}
use email_proxy.Services.{Env, World}
use email_proxy.Tokens.{Crypto, Fresh}

abbrev pub mis_admin_client_id : Text
mis_admin_client_id = text "mis-admin"

abbrev pub mis_admin_department : Text
mis_admin_department = text "MIS"

module _ (e : Env) (crypto : Crypto) (fresh : Fresh) where
  unfoldable pub generate_jwt_token : Result Text
  generate_jwt_token =
      crypto.sign
        (record {
          issuer = text "mail-proxy-system";
          subject = fresh.subject;
          issued_at = fresh.unix;
          client_id = mis_admin_client_id;
          client_name = e.config.admin_token_name;
          department = mis_admin_department;
          permissions = text "admin" ∷ [];
        })
        e.config.jwt_secret

  unfoldable pub admin_row : Text → ClientToken
  admin_row token = record {
    id = fresh.row;
    client_id = mis_admin_client_id;
    client_name = e.config.admin_token_name;
    department = mis_admin_department;
    permissions = text "admin" ∷ [];
    token_hash = crypto.sha256_hex token;
    revoked_at = none;
    is_active = true;
  }

  unfoldable pub create_new_token : World e.services → World e.services × Option Text
  create_new_token w = elim generate_jwt_token [
    | err cause ↦ (w, some cause)
    | ok token ↦
        let (db, error) = e.services.create_token (admin_row token) w.db in
        (record w { db = db }, error)
  ]

  -- The row of a revoked token with the hash of the new one.
  unfoldable pub regenerated : Text → ClientToken → ClientToken
  regenerated token old = record old {
    token_hash = crypto.sha256_hex token;
    is_active = true;
    revoked_at = none;
    client_name = e.config.admin_token_name;
  }

  unfoldable pub regenerate_token : ClientToken → World e.services → World e.services × Option Text
  regenerate_token old w = elim generate_jwt_token [
    | err cause ↦ (w, some cause)
    | ok token ↦
        let (db, error) = e.services.save_token (regenerated token old) w.db in
        (record w { db = db }, error)
  ]

  -- `none` is nil.
  unfoldable pub initialize_admin_token : World e.services → World e.services × Option Text
  initialize_admin_token w =
      let created = create_new_token w in
      if not e.config.init_admin_token
      then (w, none)
      else (elim (e.services.first_token mis_admin_client_id w.db) [
        | err cause ↦ (w, some cause)
        | ok none ↦ created
        | ok (some existing) ↦ if existing.is_active then (w, none) else regenerate_token existing w
      ])
