-- ===== src/Api/Configs/Secrets.antt =====
-- The stored secrets do not reach a response.
use mathlib.Core.Path.{sym, ap}
use email_proxy.Prelude.{◌≡◌, refl, ◌∙◌, List, [], ◌∷◌, map, inl, inr, ◌⊎◌}
use email_proxy.Prelude.Results.{Result, ok, err, Result-cases}
use email_proxy.Text.{Text, text}
use email_proxy.Models.{EmailSenderConfig}
use email_proxy.Services.{Env, World}
use email_proxy.SenderConfig.{get_by_id, list_by_client_token_id}
use email_proxy.Api.{Context, Response, failure, config_found, config_list}
use email_proxy.Api.Configs.{to_response, own_token_id, list_sender_configs, get_sender_config}

-- A configuration without its secret.
abbrev pub blind : EmailSenderConfig → EmailSenderConfig
blind config = record config { ms_client_secret_encrypted = [] }

abbrev pub blind_one : Result EmailSenderConfig → Result EmailSenderConfig
blind_one (err cause) = err cause
blind_one (ok config) = ok (blind config)

abbrev pub blind_all : Result (List EmailSenderConfig) → Result (List EmailSenderConfig)
blind_all (err cause) = err cause
blind_all (ok configs) = ok (map blind configs)

to_response-blind :
    (config : EmailSenderConfig) → to_response [] (blind config) ≡ to_response [] config
unfolding to_response
to_response-blind config = refl

responses-blind :
    (configs : List EmailSenderConfig)
    → map (to_response []) (map blind configs) ≡ map (to_response []) configs
responses-blind [] = refl
responses-blind (c ∷ configs) = rw (to_response-blind c, responses-blind configs) refl

abbrev answer_one : Result EmailSenderConfig → Response
answer_one (err _) = failure 404 (text "not_found") (text "Sender config not found")
answer_one (ok config) = config_found (to_response [] config)

answer_one-blind : (r : Result EmailSenderConfig) → answer_one (blind_one r) ≡ answer_one r
answer_one-blind (err cause) = refl
answer_one-blind (ok config) = ap config_found (to_response-blind config)

abbrev answer_all : Result (List EmailSenderConfig) → Response
answer_all (err cause) = failure 500 (text "list_error") cause
answer_all (ok configs) = config_list (map (to_response []) configs)

answer_all-blind : (r : Result (List EmailSenderConfig)) → answer_all (blind_all r) ≡ answer_all r
answer_all-blind (err cause) = refl
answer_all-blind (ok configs) = ap config_list (responses-blind configs)

own_token_cases :
    (r : Response ⊎ Text)
    → ((response : Response) × (r ≡ inl response)) ⊎ ((id : Text) × (r ≡ inr id))
own_token_cases (inl response) = inl (response, refl)
own_token_cases (inr id) = inr (id, refl)

module _ (e : Env) (v w : World e.services) where
  got :
      (config_id : Text)
      → ((i : Text) → blind_one (get_by_id e i v) ≡ blind_one (get_by_id e i w))
      → get_sender_config e config_id v ≡ get_sender_config e config_id w
  unfolding get_sender_config
  got config_id same = elim (Result-cases (e.platform.parse_uuid config_id)) [
    | inr (cause, bad) ↦ rw (get_sender_config, bad) refl
    | inl (id, parsed) ↦
        rw (get_sender_config, parsed)
          (sym (answer_one-blind (get_by_id e id v))
            ∙ (ap answer_one (same id) ∙ answer_one-blind (get_by_id e id w)))
  ]

  listed :
      (c : Context)
      → ((t : Text)
          → blind_all (list_by_client_token_id e t v) ≡ blind_all (list_by_client_token_id e t w))
      → list_sender_configs e c v ≡ list_sender_configs e c w
  unfolding list_sender_configs
  listed c same = elim (own_token_cases (own_token_id e c)) [
    | inl (response, stopped) ↦ rw (list_sender_configs, stopped) refl
    | inr (id, own) ↦
        rw (list_sender_configs, own)
          (sym (answer_all-blind (list_by_client_token_id e id v))
            ∙ (ap answer_all (same id) ∙ answer_all-blind (list_by_client_token_id e id w)))
  ]

  -- What GetSenderConfig and ListSenderConfigs answer does not depend on the stored secrets: two states
  -- of the services whose queries agree but for the secrets lead to the same answers.
  pub stored_secrets_hidden :
      (c : Context) (config_id : Text)
      → ((i : Text) → blind_one (get_by_id e i v) ≡ blind_one (get_by_id e i w))
      → ((t : Text)
          → blind_all (list_by_client_token_id e t v) ≡ blind_all (list_by_client_token_id e t w))
      → (get_sender_config e config_id v ≡ get_sender_config e config_id w)
        × (list_sender_configs e c v ≡ list_sender_configs e c w)
  stored_secrets_hidden c config_id same_one same_all = (got config_id same_one, listed c same_all)
