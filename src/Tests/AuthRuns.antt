-- ===== src/Tests/AuthRuns.antt =====
-- The middleware on concrete requests.
use email_proxy.Prelude.{◌≡◌, refl, ◌↔◌, ◌⊎◌, Bool, true, [], ◌∷◌, none, some}
use email_proxy.Prelude.Results.{Result, ok}
use email_proxy.Text.{Text, text, text_eq, to_lower, split_once}
use email_proxy.Models.{ClientToken}
use email_proxy.Services.{World}
use email_proxy.Api.{text_claim, list_claim, other_claim, Context}
use email_proxy.Api.Auth.{
  Claims, JwtToken, pass, bearer, authorize, check_claims, check_token, jwt_auth,
  require_permission,
}
use email_proxy.Api.Auth.Laws.{IsAuthenticated, jwt_auth_sound}
use email_proxy.Api.Auth.Permissions.{Holds, require_permission_iff}
use email_proxy.Tests.Fixture.{env, services, no_mails}

abbrev stored_token : ClientToken
stored_token = record {
  id = text "t1";
  client_id = text "client_1";
  client_name = text "one";
  department = [];
  permissions = text "mail.send" ∷ [];
  token_hash = [];
  revoked_at = none;
  is_active = true;
}

abbrev one_token : World services
one_token = record no_mails {
  db = record { mails = λ i. none; configs = []; tokens = stored_token ∷ [] };
}

abbrev claims : Claims
claims = record {
  client_id = text_claim (text "client_1");
  client_name = text_claim (text "one");
  department = other_claim;
  permissions = list_claim (some (text "mail.send") ∷ []);
}

abbrev parse : (Bool → Result Text) → Text → Result JwtToken
parse key token = ok (record { valid = true; claims = some claims })

abbrev context : Context
context = record {
  client_id = some (text_claim (text "client_1"));
  client_name = some (text_claim (text "one"));
  department = some other_claim;
  permissions = some (list_claim (some (text "mail.send") ∷ []));
  client_token_id = some (text_claim (text "t1"));
}

passes : jwt_auth env parse one_token (text "BEARER abc") ≡ pass context
unfolding text_eq to_lower split_once bearer authorize check_claims check_token jwt_auth
passes = refl

jwt_auth_sound_example : IsAuthenticated env parse one_token (text "BEARER abc") context
jwt_auth_sound_example = jwt_auth_sound env parse one_token (text "BEARER abc") context passes

require_permission_iff_example : (require_permission (text "mail.send") context ≡ pass context) ↔ (
    Holds (text "mail.send") (some (text "mail.send") ∷ [])
    ⊎ Holds (text "admin") (some (text "mail.send") ∷ []))
require_permission_iff_example =
    require_permission_iff (text "mail.send") context (some (text "mail.send") ∷ []) refl
