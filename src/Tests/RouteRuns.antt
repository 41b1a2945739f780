-- ===== src/Tests/RouteRuns.antt =====
-- A request to a route for administrators, and the secrets of stored configurations.
use email_proxy.Prelude.{◌≡◌, refl, inl, inr, Bool, Bool-cases, true, [], ◌∷◌, none, some}
use email_proxy.Prelude.Results.{Result, ok, err}
use email_proxy.Text.{Text, text, text_eq}
use email_proxy.Models.{EmailSenderConfig}
use email_proxy.Services.{World}
use email_proxy.SenderConfig.{get_by_id, list_by_client_token_id}
use email_proxy.Tokens.{Fresh}
use email_proxy.Api.{text_claim, Context}
use email_proxy.Api.Auth.{JwtToken}
use email_proxy.Api.Mails.{Now}
use email_proxy.Api.Routes.{
  post, authenticated, permitted, token_create, Entry, Request, Dependencies,
}
use email_proxy.Api.Configs.{get_sender_config, list_sender_configs}
use email_proxy.Api.Configs.Secrets.{blind_one, blind_all, stored_secrets_hidden}
use email_proxy.Tests.Fixture.{env, services, no_mails}

abbrev pub create_entry : Entry
create_entry = record {
  method = post;
  path = text "/api/v1/auth/token";
  chain = authenticated ∷ permitted (text "admin") ∷ [];
  handler = token_create;
}

abbrev pub no_token : (Bool → Result Text) → Text → Result JwtToken
no_token key token = err (text "token is malformed")

abbrev pub deps : Dependencies
deps = record {
  crypto = record { sign = λ c key. err (text "no"); sha256_hex = λ s. s };
  sender_config_service = none;
}

abbrev pub fresh : Fresh
fresh = record { client = text "01234567"; subject = []; row = text "t1"; unix = 0 }

abbrev pub now : Now
now = record { today = []; stamp = []; mail_id = text "a1"; fresh = λ n. [] }

abbrev pub request : Request
request = record {
  authorization = text "Bearer abc";
  id = [];
  page = 1;
  limit = 20;
  status = [];
  mail = err [];
  mails = err [];
  token = ok (record { client_name = text "one"; department = []; permissions = [] });
  config = err [];
  config_update = err [];
  now = λ n. now;
  fresh = fresh;
  instant = 0;
  random = err [];
}

abbrev config_with : Text → EmailSenderConfig
config_with secret = record {
  id = text "s1";
  client_token_id = text "t1";
  sender_email = text "bob@ptc-nec.com.tw";
  ms_tenant_id = text "tenant";
  ms_client_id = text "client";
  ms_client_secret_encrypted = secret;
  is_active = true;
}

abbrev world_with : Text → World services
world_with secret = record no_mails {
  db = record { mails = λ i. none; configs = config_with secret ∷ []; tokens = [] };
}

abbrev context : Context
context = record {
  client_id = none;
  client_name = none;
  department = none;
  permissions = none;
  client_token_id = some (text_claim (text "t1"));
}

same_one :
    (i : Text)
    → blind_one (get_by_id env i (world_with (text "abc")))
      ≡ blind_one (get_by_id env i (world_with (text "xyz")))
unfolding get_by_id
same_one i = elim (Bool-cases (text_eq (text "s1") i)) [
  | inl here ↦ rw here refl
  | inr there ↦ rw there refl
]

same_all :
    (t : Text)
    → blind_all (list_by_client_token_id env t (world_with (text "abc")))
      ≡ blind_all (list_by_client_token_id env t (world_with (text "xyz")))
unfolding list_by_client_token_id
same_all t = elim (Bool-cases (text_eq (text "t1") t)) [
  | inl here ↦ rw here refl
  | inr there ↦ rw there refl
]

stored_secrets_hidden_example :
    (get_sender_config env (text "s1") (world_with (text "abc"))
      ≡ get_sender_config env (text "s1") (world_with (text "xyz")))
    × (list_sender_configs env context (world_with (text "abc"))
        ≡ list_sender_configs env context (world_with (text "xyz")))
stored_secrets_hidden_example =
    stored_secrets_hidden env (world_with (text "abc")) (world_with (text "xyz")) context
      (text "s1") same_one same_all
