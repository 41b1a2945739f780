-- ===== src/Tests/TokenRuns.antt =====
-- Tokens that are created, revoked and revived.
use email_proxy.Prelude.{◌≡◌, refl, ◌≢◌, Bool, true, false, List, [], ◌∷◌, ◌++◌, map, none, some}
use mathlib.Core.Path.{ap, subst}
use email_proxy.Prelude.Results.{Result, ok}
use email_proxy.Text.{Text, text, text_eq, to_lower, split_once}
use email_proxy.Models.{ClientToken}
use email_proxy.Services.{World}
use email_proxy.Api.{text_claim, list_claim, Context, token_created, token_revoked}
use email_proxy.Api.Auth.{
  Claims, JwtToken, pass, bearer, authorize, check_claims, check_token, jwt_auth,
}
use email_proxy.Tokens.{JwtClaims, Crypto, Fresh}
use email_proxy.Tokens.Handler.{
  CreateTokenRequest, new_client_id, new_claims, new_token, store_new_token, create_token,
  revoke_token, uuid_of,
}
use email_proxy.Tokens.Admin.{
  mis_admin_client_id, generate_jwt_token, initialize_admin_token, regenerate_token, regenerated,
}
use email_proxy.Tokens.Issued.{claims_read, ReadsBack, context_for, create_token_passes}
use email_proxy.Tokens.Revoked.{revoke_token_refuses}
use email_proxy.Tokens.Revived.{initialize_admin_token_revives}
use email_proxy.Tests.Codec.{Codec, pair, string, texts}
use email_proxy.Tests.Fixture.{env, services, services_reliable, no_mails, ok-injective}

abbrev parts : Codec ((Text × Text) × (Text × List Text))
parts = pair (pair string string) (pair string texts)

-- A token is what is read of its claims.
abbrev token_of : (Text × Text) × (Text × List Text) → Text
token_of p = parts.write p []

abbrev sign : JwtClaims → Text → Result Text
sign c key = ok (token_of ((c.client_id, c.client_name), (c.department, c.permissions)))

abbrev claims_of : (Text × Text) × (Text × List Text) → Claims
claims_of p = record {
  client_id = text_claim p.0.0;
  client_name = text_claim p.0.1;
  department = text_claim p.1.0;
  permissions = list_claim (map some p.1.1);
}

abbrev read_claims : Text → Claims
read_claims s = claims_of (parts.read s).0

abbrev parse : (Bool → Result Text) → Text → Result JwtToken
parse key token = ok (record { valid = true; claims = some (read_claims token) })

abbrev crypto : Crypto
crypto = record { sign = sign; sha256_hex = λ s. s }

read_claims-sign :
    (c : JwtClaims) (key token : Text) → sign c key ≡ ok token → read_claims token ≡ claims_read c
read_claims-sign c key token h =
    let written : (Text × Text) × (Text × List Text) =
      ((c.client_id, c.client_name), (c.department, c.permissions)) in
    subst (λ t. read_claims t ≡ claims_read c) (ok-injective h)
      (ap (λ p. claims_of p.0) (parts.law written []))

reads_back : ReadsBack crypto parse
reads_back = record {
  reads = λ c key token f signed same.
      ap (λ x. ok (record { valid = true; claims = some x })) (read_claims-sign c key token signed);
}

abbrev fresh : Fresh
fresh = record {
  client = text "01234567-89ab";
  subject = text "s";
  row = text "t1";
  unix = 1700000000;
}

abbrev request : CreateTokenRequest
request = record { client_name = text "one"; department = []; permissions = text "mail.send" ∷ [] }

-- Another client.
abbrev other_row : ClientToken
other_row = record {
  id = text "t0";
  client_id = text "client_0";
  client_name = text "zero";
  department = [];
  permissions = [];
  token_hash = [];
  revoked_at = none;
  is_active = true;
}

abbrev other_world : World services
other_world = record no_mails {
  db = record { mails = λ i. none; configs = []; tokens = other_row ∷ [] };
}

abbrev made : World services
made = (create_token env crypto fresh (ok request) other_world).0

abbrev token : Text
token = token_of ((text "client_01234567", text "one"), ([], text "mail.send" ∷ []))

creates :
    create_token env crypto fresh (ok request) other_world
    ≡ (made, token_created token (text "client_01234567"))
unfolding create_token store_new_token new_claims new_client_id new_token
creates = refl

create_token_passes_example :
    (req : CreateTokenRequest) × ((ok request ≡ ok req)
      × ((text "client_01234567" ≡ new_client_id fresh.client)
          × (jwt_auth env parse made (text "Bearer " ++ token)
              ≡ pass (context_for (new_claims fresh req) fresh.row))))
create_token_passes_example =
    create_token_passes env crypto parse reads_back services_reliable fresh (ok request) other_world
      made token (text "client_01234567") creates

abbrev row_of_client : ClientToken
row_of_client = record {
  id = text "t1";
  client_id = text "client_01234567";
  client_name = text "one";
  department = [];
  permissions = text "mail.send" ∷ [];
  token_hash = token;
  revoked_at = none;
  is_active = true;
}

abbrev closed : World services
closed = (revoke_token env 5 (text "client_01234567") made).0

revokes : revoke_token env 5 (text "client_01234567") made ≡ (closed, token_revoked)
unfolding create_token store_new_token new_claims new_client_id new_token revoke_token uuid_of
    text_eq
revokes = refl

row_is_stored : services.token_row (text "client_01234567") made.db ≡ some row_of_client
unfolding create_token store_new_token new_claims new_client_id new_token text_eq
row_is_stored = refl

abbrev other_token : Text
other_token = token_of ((text "client_0", text "zero"), ([], []))

abbrev other_context : Context
other_context = record {
  client_id = some (text_claim (text "client_0"));
  client_name = some (text_claim (text "zero"));
  department = some (text_claim []);
  permissions = some (list_claim []);
  client_token_id = some (text_claim (text "t0"));
}

other_passes : jwt_auth env parse closed (text "Bearer " ++ other_token) ≡ pass other_context
unfolding create_token store_new_token new_claims new_client_id new_token revoke_token uuid_of
    jwt_auth check_token check_claims authorize bearer split_once to_lower text_eq
other_passes = refl

revoke_token_refuses_example : other_context.client_id ≢ some (text_claim (text "client_01234567"))
unfolding uuid_of
revoke_token_refuses_example =
    revoke_token_refuses env 5 (text "client_01234567") made closed (text "client_01234567")
      row_of_client revokes row_is_stored (unfold text_eq in refl) parse
      (text "Bearer " ++ other_token) other_context other_passes

abbrev admin_claims : JwtClaims
admin_claims = record {
  issuer = text "mail-proxy-system";
  subject = text "old";
  issued_at = 1;
  client_id = mis_admin_client_id;
  client_name = text "MIS Admin";
  department = text "MIS";
  permissions = text "admin" ∷ [];
}

abbrev admin_token : Text
admin_token = token_of ((text "mis-admin", text "MIS Admin"), (text "MIS", text "admin" ∷ []))

-- The administrator's token was revoked.
abbrev revoked_row : ClientToken
revoked_row = record {
  id = text "a0";
  client_id = mis_admin_client_id;
  client_name = text "MIS Admin";
  department = text "MIS";
  permissions = text "admin" ∷ [];
  token_hash = [];
  revoked_at = some 3;
  is_active = false;
}

abbrev admin_revoked : World services
admin_revoked = record no_mails {
  db = record { mails = λ i. none; configs = []; tokens = revoked_row ∷ [] };
}

abbrev admin_revived : World services
admin_revived = (initialize_admin_token env crypto fresh admin_revoked).0

initializes : initialize_admin_token env crypto fresh admin_revoked ≡ (admin_revived, none)
unfolding initialize_admin_token regenerate_token generate_jwt_token regenerated text_eq
initializes = refl

initialize_admin_token_revives_example :
    (stored : ClientToken) × ((services.token_row mis_admin_client_id admin_revived.db
        ≡ some stored)
      × (jwt_auth env parse admin_revived (text "Bearer " ++ admin_token)
          ≡ pass (context_for admin_claims stored.id)))
initialize_admin_token_revives_example =
    initialize_admin_token_revives env crypto fresh admin_revoked admin_revived services_reliable
      parse reads_back admin_claims admin_token refl initializes refl refl
