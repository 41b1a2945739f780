-- ===== src/SenderConfig/Laws.antt =====
-- What creating and updating a sender configuration promise.
use email_proxy.Prelude.{
  [], ◌∷◌, ◌≢◌, if◌then◌else◌, ◌≡◌, refl, sym, ap, ◌∙◌, inl, inr, true, some, arith, length,
  Bool-cases, Option-cases,
}
use email_proxy.Prelude.Results.{Result, ok, Result-cases}
use email_proxy.Text.{is_empty, Text, text_eq}
use email_proxy.Text.Laws.{text_eq_refl, text_eq_iff}
use email_proxy.Models.{EmailSenderConfig}
use email_proxy.Services.{Env, World, IsReliable}
use email_proxy.Router.{in_domain}
use email_proxy.Router.Laws.{IsWithin, in_domain_iff}
use email_proxy.Encryption.{EncryptionService, new_encryption_service, nonce_size, encrypt, decrypt}
use email_proxy.Encryption.Laws.{decrypt-encrypt}
use email_proxy.SenderConfig.{
  CreateRequest, UpdateRequest, new_config, new_secret, create, update, updated_config,
  decrypt_secret, get_decrypted_config,
}

updated_config_shape :
    (req : UpdateRequest) (old : EmailSenderConfig) (secret : Text)
    → ((updated_config req old secret).id ≡ old.id)
      × ((updated_config req old secret).client_token_id ≡ old.client_token_id)
      × ((updated_config req old secret).sender_email ≡ old.sender_email)
      × ((updated_config req old secret).ms_client_secret_encrypted ≡ secret)
unfolding updated_config
updated_config_shape req old secret = (refl, refl, refl, refl)

module _ (e : Env) (encryption : EncryptionService) (random : Result Text) where
  create_sound :
      (id token : Text) (req : CreateRequest) (w w' : World e.services) (config : EmailSenderConfig)
      → create e encryption random id token req w ≡ (w', ok config)
      → (secret : Text) × IsWithin e.platform.unicode_lower e.config.org_email_domain
          req.sender_email
        × (encrypt e.platform encryption random req.ms_client_secret ≡ ok secret)
        × (config ≡ new_config e encryption random id token req secret)
        × (e.services.config_row config.id w'.db ≡ some config)
  unfolding create
  create_sound id token req w w' config h =
      let test =
        in_domain_iff e.platform.unicode_lower req.sender_email e.config.org_email_domain in
      elim (Bool-cases
        (in_domain e.platform.unicode_lower req.sender_email e.config.org_email_domain)) [
          | inr outside ↦ absurd (ground arith)
          | inl inside ↦
              elim (Result-cases (encrypt e.platform encryption random req.ms_client_secret)) [
                | inr (cause, bad) ↦ absurd (ground arith)
                | inl (secret, sealed) ↦
                    let made = new_config e encryption random id token req secret in
                    elim (Option-cases (e.services.create_config made w.db).1) [
                      | inr (cause, bad) ↦ absurd (ground arith)
                      | inl good ↦
                          let facts : (config ≡ made)
                              × (w'.db ≡ (e.services.create_config made w.db).0) =
                            ground arith in
                          let law = e.services.config_row-create made w.db made.id good in
                          (
                            secret,
                            test.0 inside,
                            sealed,
                            facts.0,
                            ap (λ c. e.services.config_row c.id w'.db) facts.0
                                ∙ ap (e.services.config_row made.id) facts.1
                                ∙ law
                                ∙ rw text_eq_refl (ap some (sym facts.0)),
                          )
                    ]
              ]
        ]

  secret_choice :
      (given kept secret : Text)
      → (if is_empty given then ok kept else encrypt e.platform encryption random given) ≡ ok secret
      → (given ≡ [] → secret ≡ kept)
        × (given ≢ [] → encrypt e.platform encryption random given ≡ ok secret)
  secret_choice [] kept secret h =
      (λ given_none. ground arith, λ given_some. absurd (given_some refl))
  secret_choice (c ∷ given) kept secret h = ((λ given_none. cc), λ _. h)

  new_secret_lem :
      (req : UpdateRequest) (old : EmailSenderConfig) (secret : Text)
      → new_secret e encryption random req old ≡ ok secret
      → (req.ms_client_secret ≡ [] → secret ≡ old.ms_client_secret_encrypted)
        × (req.ms_client_secret ≢ []
            → encrypt e.platform encryption random req.ms_client_secret ≡ ok secret)
  unfolding new_secret
  new_secret_lem req old secret h =
      secret_choice req.ms_client_secret old.ms_client_secret_encrypted secret h

  -- An update that succeeds keeps the id, the client and the sender of the configuration, stores what
  -- it returns, and keeps the secret if the request has none, and stores the encrypted new one
  -- otherwise.
  pub update_lem :
      (id : Text) (req : UpdateRequest) (w w' : World e.services) (config : EmailSenderConfig)
      → update e encryption random id req w ≡ (w', ok config)
      → (old : EmailSenderConfig) × (e.services.config_row id w.db ≡ some old)
        × (e.services.config_row id w'.db ≡ some config)
        × (config.id ≡ old.id)
        × (config.client_token_id ≡ old.client_token_id)
        × (config.sender_email ≡ old.sender_email)
        × (req.ms_client_secret ≡ []
            → config.ms_client_secret_encrypted ≡ old.ms_client_secret_encrypted)
        × (req.ms_client_secret ≢ []
            → encrypt e.platform encryption random req.ms_client_secret
              ≡ ok config.ms_client_secret_encrypted)
  unfolding update
  update_lem id req w w' config h = elim (Result-cases (e.services.first_config id w.db)) [
    | inr (cause, bad) ↦ absurd (ground arith)
    | inl (old, found) ↦ elim (Result-cases (new_secret e encryption random req old)) [
      | inr (cause, bad) ↦ absurd (ground arith)
      | inl (secret, sealed) ↦
          let new = updated_config req old secret in
          let choice = new_secret_lem req old secret sealed in
          elim (Option-cases (e.services.save_config new w.db).1) [
            | inr (cause, bad) ↦ absurd (ground arith)
            | inl good ↦
                let facts : (config ≡ new) × (w'.db ≡ (e.services.save_config new w.db).0) =
                  ground arith in
                let (held, same_id) = e.services.first_config-row id w.db old found in
                let shape = updated_config_shape req old secret in
                let law = e.services.config_row-save new w.db id good in
                let same : text_eq new.id id ≡ true =
                  (text_eq_iff new.id id).1 (shape.0 ∙ same_id) in
                (
                  old,
                  held,
                  ap (e.services.config_row id) facts.1 ∙ law ∙ rw same (ap some (sym facts.0)),
                  ap (λ c. c.id) facts.0 ∙ shape.0,
                  ap (λ c. c.client_token_id) facts.0 ∙ shape.1,
                  ap (λ c. c.sender_email) facts.0 ∙ shape.2,
                  λ none_given.
                      ap (λ c. c.ms_client_secret_encrypted) facts.0
                      ∙ shape.3
                      ∙ choice.0 none_given,
                  λ some_given.
                      choice.1 some_given
                      ∙ ap ok (sym (ap (λ c. c.ms_client_secret_encrypted) facts.0 ∙ shape.3)),
                )
          ]
    ]
  ]

read_back :
    (e : Env) (encryption : EncryptionService) (id secret : Text) (w : World e.services)
    (config : EmailSenderConfig)
    → e.services.first_config id w.db ≡ ok config
    → decrypt e.platform encryption config.ms_client_secret_encrypted ≡ ok secret
    → get_decrypted_config e encryption id w ≡ ok (config, secret)
unfolding get_decrypted_config decrypt_secret
read_back e encryption id secret w config h k = rw (h, get_decrypted_config) (rw k refl)

-- A configuration that was created is for a sender in the organization, and the worker reads it
-- back with the secret of the request, if the service was made from a key, the nonce has its size,
-- base64 and AES-GCM undo themselves, and the database does not fail.
pub get_decrypted_config-create :
    (e : Env) (k nonce id token : Text) (encryption : EncryptionService) (req : CreateRequest)
    (w w' : World e.services) (config : EmailSenderConfig)
    → IsReliable e.services
    → new_encryption_service k ≡ ok encryption
    → length nonce ≡ nonce_size
    → ((t : Text) → e.platform.base64_decode (e.platform.base64_encode t) ≡ ok t)
    → e.platform.gcm_open encryption.key nonce
        (e.platform.gcm_seal encryption.key nonce req.ms_client_secret)
      ≡ ok req.ms_client_secret
    → create e encryption (ok nonce) id token req w ≡ (w', ok config)
    → IsWithin e.platform.unicode_lower e.config.org_email_domain req.sender_email
      × (get_decrypted_config e encryption config.id w' ≡ ok (config, req.ms_client_secret))
unfolding new_config
get_decrypted_config-create e k nonce id token encryption req w w' config r made sized base64 gcm
      h =
    let (secret, within, sealed, is, row) =
      create_sound e encryption (ok nonce) id token req w w' config h in
    let (sealed_text, sealing, opening) =
      decrypt-encrypt e.platform k encryption nonce req.ms_client_secret made sized base64 gcm in
    let same : secret ≡ sealed_text = ground arith in
    let stored : config.ms_client_secret_encrypted ≡ secret =
      ap (λ c. c.ms_client_secret_encrypted) is in
    let opened : decrypt e.platform encryption config.ms_client_secret_encrypted
        ≡ ok req.ms_client_secret =
      ap (decrypt e.platform encryption) (stored ∙ same) ∙ opening in
    (
      within,
      read_back e encryption config.id req.ms_client_secret w' config
          (r.reads_config config.id w'.db config row) opened,
    )
