-- ===== src/Tests/ConfigRuns.antt =====
-- Creating and updating a sender configuration.
use email_proxy.Prelude.{◌≢◌, ◌≡◌, refl, [], true, false, some}
use email_proxy.Prelude.Results.{ok}
use email_proxy.Text.{Text, text, text_eq, to_lower, has_suffix}
use email_proxy.Models.{EmailSenderConfig}
use email_proxy.Services.{World}
use email_proxy.Router.{in_domain}
use email_proxy.Router.Laws.{IsWithin}
use email_proxy.Encryption.{EncryptionService, new_encryption_service, new_gcm, encrypt}
use email_proxy.SenderConfig.{
  CreateRequest, UpdateRequest, new_config, new_secret, updated_config, create, update,
  get_decrypted_config,
}
use email_proxy.SenderConfig.Laws.{update_lem, get_decrypted_config-create}
use email_proxy.Tests.Fixture.{env, services, services_reliable, platform, config, no_mails}

abbrev key : Text
key = text "0123456789abcdef0123456789abcdef"

abbrev encryption : EncryptionService
encryption = record { key = key }

abbrev nonce : Text
nonce = text "abcdefghijkl"

abbrev request : CreateRequest
request = record {
  sender_email = text "Bob@PTC-NEC.com.tw";
  ms_tenant_id = text "tenant";
  ms_client_id = text "client";
  ms_client_secret = text "pass";
}

abbrev made : EmailSenderConfig
made = record {
  id = text "s1";
  client_token_id = text "t1";
  sender_email = text "bob@ptc-nec.com.tw";
  ms_tenant_id = text "tenant";
  ms_client_id = text "client";
  ms_client_secret_encrypted = text "abcdefghijklpass";
  is_active = true;
}

abbrev made_world : World services
made_world = (create env encryption (ok nonce) (text "s1") (text "t1") request no_mails).0

creates :
    create env encryption (ok nonce) (text "s1") (text "t1") request no_mails
    ≡ (made_world, ok made)
unfolding to_lower has_suffix in_domain new_gcm encrypt new_config create
creates = refl

get_decrypted_config-create_example :
    IsWithin platform.unicode_lower config.org_email_domain request.sender_email
    × (get_decrypted_config env encryption (text "s1") made_world ≡ ok (made, text "pass"))
unfolding new_encryption_service
get_decrypted_config-create_example =
    get_decrypted_config-create env key nonce (text "s1") (text "t1") encryption request no_mails
      made_world made services_reliable refl refl (λ t. refl) refl creates

abbrev switch_off : UpdateRequest
switch_off = record {
  ms_tenant_id = [];
  ms_client_id = text "other";
  ms_client_secret = [];
  is_active = some false;
}

abbrev changed : EmailSenderConfig
changed = record made { ms_client_id = text "other"; is_active = false }

abbrev changed_world : World services
changed_world = (update env encryption (ok nonce) (text "s1") switch_off made_world).0

updates :
    update env encryption (ok nonce) (text "s1") switch_off made_world ≡ (changed_world, ok changed)
unfolding text_eq to_lower has_suffix in_domain new_gcm encrypt new_config create new_secret
    updated_config update
updates = refl

update_lem_example :
    (old : EmailSenderConfig) × (services.config_row (text "s1") made_world.db ≡ some old)
    × (services.config_row (text "s1") changed_world.db ≡ some changed)
    × (changed.id ≡ old.id)
    × (changed.client_token_id ≡ old.client_token_id)
    × (changed.sender_email ≡ old.sender_email)
    × (switch_off.ms_client_secret ≡ []
        → changed.ms_client_secret_encrypted ≡ old.ms_client_secret_encrypted)
    × (switch_off.ms_client_secret ≢ []
        → encrypt platform encryption (ok nonce) switch_off.ms_client_secret
          ≡ ok changed.ms_client_secret_encrypted)
update_lem_example =
    update_lem env encryption (ok nonce) (text "s1") switch_off made_world changed_world changed
      updates
