-- ===== src/Api/Configs.antt =====
-- internal/api/handlers/sender_config_handler.go: the Microsoft settings of a client's senders.
pub mod Secrets
use email_proxy.Prelude.{[], map, none, some, ◌⊎◌, inl, inr}
use email_proxy.Prelude.Results.{Result, ok, err}
use email_proxy.Text.{Text, text}
use email_proxy.Models.{EmailSenderConfig}
use email_proxy.Services.{Env, World}
use email_proxy.Encryption.{EncryptionService}
use email_proxy.SenderConfig.{
  CreateRequest, UpdateRequest, mask_secret, get_by_id, list_by_client_token_id, create, update,
  delete,
}
use email_proxy.Api.{
  text_claim, list_claim, other_claim, Context, SenderConfigResponse, Response, failure,
  config_created, config_found, config_list, config_deleted, panic,
}

-- `ToResponse`
unfoldable pub to_response : Text → EmailSenderConfig → SenderConfigResponse
to_response decrypted_secret config = record {
  id = config.id;
  client_token_id = config.client_token_id;
  sender_email = config.sender_email;
  ms_tenant_id = config.ms_tenant_id;
  ms_client_id = config.ms_client_id;
  ms_client_secret = mask_secret decrypted_secret;
  is_active = config.is_active;
}

module _ (e : Env) where
  -- The UUID of the client's token in the context, or the response without one. A claim that is no
  -- text fails the type assertion.
  unfoldable pub own_token_id : Context → Response ⊎ Text
  own_token_id c = elim c.client_token_id [
    | none ↦ inl (failure 401 (text "unauthorized") (text "Client token ID not found"))
    | some (list_claim _) ↦ inl panic
    | some other_claim ↦ inl panic
    | some (text_claim id) ↦ elim (e.platform.parse_uuid id) [
      | err _ ↦ inl (failure 400 (text "invalid_client_token_id") (text "Invalid client token ID"))
      | ok uuid ↦ inr uuid
    ]
  ]

  -- The part of CreateSenderConfig after the request was bound.
  unfoldable pub create_bound :
      EncryptionService
      → Result Text
      → Text
      → Text
      → CreateRequest
      → World e.services
      → World e.services × Response
  create_bound encryption random id token_id req w =
      let (w', created) = create e encryption random id token_id req w in
      (
        w',
        elim created [
          | err cause ↦ failure 400 (text "create_error") cause
          | ok config ↦ config_created (to_response req.ms_client_secret config)
        ],
      )

  -- `CreateSenderConfig`; `id` is the new UUID, `random` what is read for the nonce, and the request what
  -- ShouldBindJSON made of the body.
  unfoldable pub create_sender_config :
      EncryptionService
      → Result Text
      → Text
      → Context
      → Result CreateRequest
      → World e.services
      → World e.services × Response
  create_sender_config encryption random id c bound w = elim (own_token_id c) [
    | inl response ↦ (w, response)
    | inr token_id ↦ elim bound [
      | err cause ↦ (w, failure 400 (text "validation_error") cause)
      | ok req ↦ create_bound encryption random id token_id req w
    ]
  ]

  unfoldable pub list_sender_configs : Context → World e.services → Response
  list_sender_configs c w = elim (own_token_id c) [
    | inl response ↦ response
    | inr token_id ↦ elim (list_by_client_token_id e token_id w) [
      | err cause ↦ failure 500 (text "list_error") cause
      | ok configs ↦ config_list (map (to_response []) configs)
    ]
  ]

  abbrev invalid_id : Response
  invalid_id = failure 400 (text "invalid_id") (text "Invalid config ID")

  unfoldable pub get_sender_config : Text → World e.services → Response
  get_sender_config config_id w = elim (e.platform.parse_uuid config_id) [
    | err _ ↦ invalid_id
    | ok id ↦ elim (get_by_id e id w) [
      | err _ ↦ failure 404 (text "not_found") (text "Sender config not found")
      | ok config ↦ config_found (to_response [] config)
    ]
  ]

  -- The part of UpdateSenderConfig after the request was bound.
  unfoldable pub update_bound :
      EncryptionService
      → Result Text
      → Text
      → UpdateRequest
      → World e.services
      → World e.services × Response
  update_bound encryption random id req w =
      let (w', updated) = update e encryption random id req w in
      (
        w',
        elim updated [
          | err cause ↦ failure 400 (text "update_error") cause
          | ok config ↦ config_found (to_response [] config)
        ],
      )

  unfoldable pub update_sender_config :
      EncryptionService
      → Result Text
      → Text
      → Result UpdateRequest
      → World e.services
      → World e.services × Response
  update_sender_config encryption random config_id bound w =
      elim (e.platform.parse_uuid config_id) [
        | err _ ↦ (w, invalid_id)
        | ok id ↦ elim bound [
          | err cause ↦ (w, failure 400 (text "validation_error") cause)
          | ok req ↦ update_bound encryption random id req w
        ]
      ]

  unfoldable pub delete_sender_config : Text → World e.services → World e.services × Response
  delete_sender_config config_id w = elim (e.platform.parse_uuid config_id) [
    | err _ ↦ (w, invalid_id)
    | ok id ↦
        let (w', error) = delete e id w in
        (
          w',
          elim error [
            | some cause ↦ failure 404 (text "delete_error") cause
            | none ↦ config_deleted
          ],
        )
  ]
