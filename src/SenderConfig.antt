-- ===== src/SenderConfig.antt =====
-- internal/services/email_sender_config_service.go: the Microsoft OAuth settings of a sender.
pub mod Laws
use email_proxy.Prelude.{
  ◌-◌, ◌++◌, List, [], ◌∷◌, Bool, true, not, ◌||◌, Option, none, some, length, take, drop, leb,
  ◌==◌, if◌then◌else◌,
}
use email_proxy.Prelude.Results.{Result, ok, err, ◌>>=◌}
use email_proxy.Router.{in_domain}
use email_proxy.Text.{Text, text, to_lower, contains, is_empty}
use email_proxy.Models.{EmailSenderConfig}
use email_proxy.Encryption.{EncryptionService, encrypt, decrypt}
use email_proxy.Services.{Env, World}

-- `GetBySenderEmail`: the active configuration of a client for an address in any case.
unfoldable pub get_by_sender_email :
    (e : Env) → Text → Text → World e.services → Result EmailSenderConfig
get_by_sender_email e client_token_id sender_email w =
    e.services.first_sender client_token_id (to_lower e.platform.unicode_lower sender_email) w.db

module _ (e : Env) (encryption : EncryptionService) where
  unfoldable pub decrypt_secret : EmailSenderConfig → Result Text
  decrypt_secret config = decrypt e.platform encryption config.ms_client_secret_encrypted

  unfoldable pub get_decrypted_config : Text → World e.services → Result (EmailSenderConfig × Text)
  unfolding decrypt_secret
  get_decrypted_config id w = do
    config ← e.services.first_config id w.db
    secret ← decrypt_secret config
    ok (config, secret)

-- CreateSenderConfigRequest
pub record CreateRequest : Type 0 where
  pub sender_email : Text
  pub ms_tenant_id : Text
  pub ms_client_id : Text
  pub ms_client_secret : Text

-- UpdateSenderConfigRequest; a nil pointer is `none`.
pub record UpdateRequest : Type 0 where
  pub ms_tenant_id : Text
  pub ms_client_id : Text
  pub ms_client_secret : Text
  pub is_active : Option Bool

-- The later text, unless it is empty.
abbrev replaced : Text → Text → Text
replaced old [] = old
replaced old (c ∷ new) = c ∷ new

abbrev or_old : Bool → Option Bool → Bool
or_old old none = old
or_old old (some new) = new

-- The configuration after an update. A field that is empty or nil in the request keeps its value.
unfoldable pub updated_config : UpdateRequest → EmailSenderConfig → Text → EmailSenderConfig
updated_config req config secret = record config {
  ms_tenant_id = replaced config.ms_tenant_id req.ms_tenant_id;
  ms_client_id = replaced config.ms_client_id req.ms_client_id;
  ms_client_secret_encrypted = secret;
  is_active = or_old config.is_active req.is_active;
}

-- What the error of a failed creation says.
unfoldable pub creation_error : Text → Text
creation_error cause =
    if contains cause (text "duplicate key") || contains cause (text "unique constraint")
    then text "sender_email already exists for this client"
    else cause

-- `maskSecret`
unfoldable pub mask_secret : Text → Text
mask_secret secret =
    if leb (length secret) 8
    then text "****"
    else take 4 secret ++ text "****" ++ drop (length secret - 4) secret

-- `GetByID`
unfoldable pub get_by_id : (e : Env) → Text → World e.services → Result EmailSenderConfig
get_by_id e id w = e.services.first_config id w.db

-- `GetBySenderEmailOnly`
unfoldable pub get_by_sender_email_only :
    (e : Env) → Text → World e.services → Result EmailSenderConfig
get_by_sender_email_only e sender_email w =
    e.services.first_active_sender (to_lower e.platform.unicode_lower sender_email) w.db

-- `ListByClientTokenID`
unfoldable pub list_by_client_token_id :
    (e : Env) → Text → World e.services → Result (List EmailSenderConfig)
list_by_client_token_id e client_token_id w = e.services.configs_of client_token_id w.db

-- `Delete`: without a deleted row, whatever the database's error is, the answer is the same.
unfoldable pub delete : (e : Env) → Text → World e.services → World e.services × Option Text
delete e id w =
    let (db, (rows, error)) = e.services.delete_config id w.db in
    (record w { db = db }, if rows == 0 then some (text "config not found") else error)

module _ (e : Env) (encryption : EncryptionService) (random : Result Text) where
  unfoldable pub new_config : Text → Text → CreateRequest → Text → EmailSenderConfig
  new_config id client_token_id req secret = record {
    id = id;
    client_token_id = client_token_id;
    sender_email = to_lower e.platform.unicode_lower req.sender_email;
    ms_tenant_id = req.ms_tenant_id;
    ms_client_id = req.ms_client_id;
    ms_client_secret_encrypted = secret;
    is_active = true;
  }

  -- `Create`; `id` is the new UUID, and `random` what was read for the nonce.
  unfoldable pub create :
      Text → Text → CreateRequest → World e.services → World e.services × Result EmailSenderConfig
  create id client_token_id req w =
      if not (in_domain e.platform.unicode_lower req.sender_email e.config.org_email_domain)
      then (w, err (text "sender_email must be organization domain"))
      else (elim (encrypt e.platform encryption random req.ms_client_secret) [
        | err _ ↦ (w, err (text "failed to encrypt client secret"))
        | ok secret ↦
            let config = new_config id client_token_id req secret in
            let (db, not_created) = e.services.create_config config w.db in
            (
              record w { db = db },
              elim not_created [ some cause ↦ err (creation_error cause) | none ↦ ok config ],
            )
      ])

  -- The secret of an updated configuration.
  unfoldable pub new_secret : UpdateRequest → EmailSenderConfig → Result Text
  new_secret req config =
      if is_empty req.ms_client_secret
      then ok config.ms_client_secret_encrypted
      else encrypt e.platform encryption random req.ms_client_secret

  -- `Update`
  unfoldable pub update :
      Text → UpdateRequest → World e.services → World e.services × Result EmailSenderConfig
  update id req w = elim (e.services.first_config id w.db) [
    | err cause ↦ (w, err cause)
    | ok config ↦ elim (new_secret req config) [
      | err _ ↦ (w, err (text "failed to encrypt client secret"))
      | ok secret ↦
          let updated = updated_config req config secret in
          let (db, not_saved) = e.services.save_config updated w.db in
          (record w { db = db }, elim not_saved [ some cause ↦ err cause | none ↦ ok updated ])
    ]
  ]
