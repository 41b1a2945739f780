-- ===== src/Api/Routes.antt =====
-- internal/api/routes/routes.go: which handler a route has, and what stands in front of it. Finding the
-- entry of a request is gin's part; `serve` is what gin does with the entry it has found.
pub mod Guards
use email_proxy.Prelude.{ℕ, Bool, true, List, [], ◌∷◌, ◌++◌, map, Option, none, some, if◌then◌else◌}
use email_proxy.Prelude.Results.{Result}
use email_proxy.Text.{Text, text}
use email_proxy.Services.{Env, World}
use email_proxy.Encryption.{EncryptionService}
use email_proxy.SenderConfig.{CreateRequest, UpdateRequest}
use email_proxy.Tokens.{Crypto, Fresh}
use email_proxy.Tokens.Handler.{
  CreateTokenRequest, create_token, get_token, revoke_token, list_tokens,
}
use email_proxy.Api.{Context, Response, panic}
use email_proxy.Api.Auth.{JwtToken, Passage, abort, pass, jwt_auth, require_permission}
use email_proxy.Api.Mails.{SendRequest, Now, as_text, send}
use email_proxy.Api.Mails.Batches.{send_batch}
use email_proxy.Api.Mails.States.{status_of, cancel}
use email_proxy.Api.Status.{get_history, get_health}
use email_proxy.Api.Configs.{
  create_sender_config, list_sender_configs, get_sender_config, update_sender_config,
  delete_sender_config,
}

pub data Method : Type 0 where
  get post put delete : Method

pub data Middleware : Type 0 where
  authenticated : Middleware
  permitted : Text → Middleware

pub data Handler : Type 0 where
  health_check : Handler
  mail_send mail_send_batch mail_status mail_history mail_cancel : Handler
  token_create token_get token_revoke tokens_list : Handler
  config_create configs_list config_get config_update config_delete : Handler

pub record Entry : Type 0 where
  pub method : Method
  pub path : Text
  pub chain : List Middleware
  pub handler : Handler

unfoldable pub entry : Method → Text → Handler → Entry
entry method path handler = record { method = method; path = path; chain = []; handler = handler }

-- The entries of a router group.
unfoldable pub group : Text → List Middleware → List Entry → List Entry
group prefix chain entries =
    map (λ (x : Entry). record x { path = prefix ++ x.path; chain = chain ++ x.chain }) entries

unfoldable pub mail_entries : List Entry
unfolding entry
mail_entries =
    entry post (text "/send") mail_send
    ∷ entry post (text "/send/batch") mail_send_batch
    ∷ entry get (text "/status/:id") mail_status
    ∷ entry get (text "/history") mail_history
    ∷ entry delete (text "/cancel/:id") mail_cancel
    ∷ []

unfoldable pub token_entries : List Entry
unfolding entry
token_entries =
    entry post (text "/token") token_create
    ∷ entry get (text "/token/:id") token_get
    ∷ entry delete (text "/token/:id") token_revoke
    ∷ entry get (text "/tokens") tokens_list
    ∷ []

-- These entries are there only with a service for the configurations.
unfoldable pub config_entries : Bool → List Entry
unfolding entry
config_entries has_service =
    if has_service
    then entry post (text "/sender-config") config_create
      ∷ entry get (text "/sender-configs") configs_list
      ∷ entry get (text "/sender-config/:id") config_get
      ∷ entry put (text "/sender-config/:id") config_update
      ∷ entry delete (text "/sender-config/:id") config_delete
      ∷ []
    else []

-- `RegisterRoutes`
unfoldable pub registered : Bool → List Entry
unfolding entry group mail_entries token_entries config_entries
registered has_service =
    entry get (text "/health") health_check
    ∷ group (text "/api/v1") [] (
        group (text "/mail") (authenticated ∷ []) mail_entries
        ++ group (text "/auth") (authenticated ∷ permitted (text "admin") ∷ [])
            (token_entries ++ config_entries has_service))

-- What the handlers read of a request: the header, the parameter `id` of the path, those of the query
-- as GetHistory reads them, what binding the body as JSON gives, and what is new in the call.
pub record Request : Type 0 where
  pub authorization : Text
  pub id : Text
  pub page : ℕ
  pub limit : ℕ
  pub status : Text
  pub mail : Result SendRequest
  pub mails : Result (List SendRequest)
  pub token : Result CreateTokenRequest
  pub config : Result CreateRequest
  pub config_update : Result UpdateRequest
  pub now : ℕ → Now
  pub fresh : Fresh
  pub instant : ℕ
  pub random : Result Text

-- `Dependencies`
pub record Dependencies : Type 0 where
  pub crypto : Crypto
  pub sender_config_service : Option EncryptionService

-- The context of a new request.
abbrev pub no_context : Context
no_context = record {
  client_id = none;
  client_name = none;
  department = none;
  permissions = none;
  client_token_id = none;
}

module _ (e : Env) (jwt_parse : (Bool → Result Text) → Text → Result JwtToken)
    (deps : Dependencies) where
  -- A middleware, with the context that those before it left.
  unfoldable pub step : World e.services → Text → Middleware → Context → Passage
  step w header authenticated c = jwt_auth e jwt_parse w header
  step w header (permitted permission) c = require_permission permission c

  unfoldable pub run_chain : World e.services → Text → List Middleware → Context → Passage
  unfolding step
  run_chain w header [] c = pass c
  run_chain w header (m ∷ chain) c = elim (step w header m c) [
    | abort r ↦ abort r
    | pass c' ↦ run_chain w header chain c'
  ]

  -- The client id, which JWTAuth has stored as a text.
  abbrev client_of : Context → Text
  client_of c = elim (as_text c.client_id) [ none ↦ [] | some id ↦ id ]

  unfoldable pub run_mail :
      Handler → Request → Context → World e.services → World e.services × Response
  run_mail mail_send r c w = send e deps.sender_config_service c (r.now 0) r.mail w
  run_mail mail_send_batch r c w = send_batch e c r.now r.fresh.row r.mails w
  run_mail mail_status r c w = (w, status_of e r.id w)
  run_mail mail_history r c w = (w, get_history e (client_of c) r.page r.limit r.status w)
  run_mail mail_cancel r c w = cancel e (r.now 0).stamp (client_of c) r.id w
  run_mail _ r c w = (w, panic)

  -- The handlers of configurations are registered only with a service.
  unfoldable pub run_config :
      EncryptionService
      → Handler
      → Request
      → Context
      → World e.services
      → World e.services × Response
  run_config service config_create r c w =
      create_sender_config e service r.random r.fresh.row c r.config w
  run_config service configs_list r c w = (w, list_sender_configs e c w)
  run_config service config_get r c w = (w, get_sender_config e r.id w)
  run_config service config_update r c w =
      update_sender_config e service r.random r.id r.config_update w
  run_config service config_delete r c w = delete_sender_config e r.id w
  run_config service _ r c w = (w, panic)

  -- A handler, after its middleware.
  unfoldable pub run : Handler → Request → Context → World e.services → World e.services × Response
  run health_check r c w = (w, get_health e true w)
  run token_create r c w = create_token e deps.crypto r.fresh r.token w
  run token_get r c w = (w, get_token e r.id w)
  run token_revoke r c w = revoke_token e r.instant r.id w
  run tokens_list r c w = (w, list_tokens e w)
  run mail_send r c w = run_mail mail_send r c w
  run mail_send_batch r c w = run_mail mail_send_batch r c w
  run mail_status r c w = run_mail mail_status r c w
  run mail_history r c w = run_mail mail_history r c w
  run mail_cancel r c w = run_mail mail_cancel r c w
  run h r c w = elim deps.sender_config_service [
    | none ↦ (w, panic)
    | some service ↦ run_config service h r c w
  ]

  -- The chain of an entry, and its handler if no middleware has answered.
  unfoldable pub serve : Entry → Request → World e.services → World e.services × Response
  serve x r w = elim (run_chain w r.authorization x.chain no_context) [
    | abort response ↦ (w, response)
    | pass c ↦ run x.handler r c w
  ]
