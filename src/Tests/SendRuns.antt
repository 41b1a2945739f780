-- ===== src/Tests/SendRuns.antt =====
-- Sending through the API on a concrete request.
use email_proxy.Prelude.{ℕ, List, ◌≡◌, refl, ◌⊎◌, [], ◌∷◌, true, none, some}
use email_proxy.Prelude.Results.{ok}
use email_proxy.Text.{Text, text, text_eq, to_lower, has_suffix, split, split_from}
use email_proxy.Models.{EmailSenderConfig}
use email_proxy.Services.{World}
use email_proxy.FilePath.{join, join_slash, clean, is_rooted, resolve_all, resolve, go_up}
use email_proxy.FilePath.Laws.{absolute, elements, directory}
use email_proxy.Keydb.{set_status}
use email_proxy.Queue.{publish, publish_mail}
use email_proxy.Encryption.{EncryptionService}
use email_proxy.SenderConfig.{get_by_sender_email}
use email_proxy.Router.{in_domain}
use email_proxy.Router.Laws.{IsWithin}
use email_proxy.Api.{
  text_claim, other_claim, list_claim, Context, mail_queued, BatchEntry, entry_queued, batch,
}
use email_proxy.Api.Attachments.{
  AttachmentRequest, Gathered, stored, store_attachments, exceeds, write, gather, request_path,
}
use email_proxy.Api.Attachments.Laws.{AreKept, store_attachments-AreKept, request_path_lem}
use email_proxy.Api.Mails.{
  SendRequest, Now, chosen, find_stored_config, find_sender_config, new_mail, enqueue,
  create_and_enqueue, submit, respond, send,
}
use email_proxy.Api.Mails.Choices.{IsOwn, find_sender_config_lem}
use email_proxy.Api.Mails.Batches.{batch_entry, process_single_mail, process_mails, send_batch}
use email_proxy.Api.Mails.Batches.Order.{AreReported, send_batch-AreReported}
use email_proxy.Api.Mails.Sends.{IsQueued, send_sound}
use email_proxy.Tests.Fixture.{env, services, platform, config, no_mails}

abbrev own_config : EmailSenderConfig
own_config = record {
  id = text "s1";
  client_token_id = text "t1";
  sender_email = text "bob@ptc-nec.com.tw";
  ms_tenant_id = [];
  ms_client_id = [];
  ms_client_secret_encrypted = [];
  is_active = true;
}

abbrev one_config : World services
one_config = record no_mails {
  db = record { mails = λ i. none; configs = own_config ∷ []; tokens = [] };
}

abbrev context : Context
context = record {
  client_id = some (text_claim (text "client_1"));
  client_name = some (text_claim (text "one"));
  department = some other_claim;
  permissions = some (list_claim (some (text "mail.send") ∷ []));
  client_token_id = some (text_claim (text "t1"));
}

abbrev bob : Text
bob = text "Bob@PTC-NEC.com.tw"

abbrev note : AttachmentRequest
note = record { filename = text "n"; content = text "abc"; content_type = text "text/plain" }

abbrev request : SendRequest
request = record {
  from = bob;
  to = text "x@y.z" ∷ [];
  cc = [];
  bcc = [];
  subject = text "hi";
  body = text "hello";
  html = [];
  attachments = note ∷ [];
  metadata = [];
}

abbrev now : Now
now = record {
  today = text "2025/01/02";
  stamp = text "12:00";
  mail_id = text "a1";
  fresh = λ n. n ∷ [];
}

abbrev encryption : EncryptionService
encryption = record { key = [] }

chosen_config :
    find_sender_config env (some encryption) context bob one_config ≡ chosen (some (text "s1"))
unfolding text_eq to_lower has_suffix in_domain get_by_sender_email find_stored_config
    find_sender_config
chosen_config = refl

find_sender_config_lem_example :
    ((some (text "s1") ≡ none) × ¬ IsWithin platform.unicode_lower config.org_email_domain bob)
    ⊎ (IsWithin platform.unicode_lower config.org_email_domain bob
        × (stored_config : EmailSenderConfig) × (token : Text) × (some (text "s1")
            ≡ some stored_config.id)
        × IsOwn env context bob token stored_config)
find_sender_config_lem_example =
    find_sender_config_lem env (some encryption) context bob one_config (some (text "s1"))
      chosen_config

abbrev nothing : Gathered
nothing = record { rows = []; infos = [] }

abbrev kept : Gathered
kept = gather env now.today now.mail_id now.fresh note (text "abc") nothing

abbrev written : World services
written = (store_attachments env now.today now.mail_id now.fresh (note ∷ []) nothing one_config).0

all_kept :
    store_attachments env now.today now.mail_id now.fresh (note ∷ []) nothing one_config
    ≡ (written, stored kept)
unfolding exceeds write store_attachments
all_kept = refl

store_attachments-AreKept_example :
    AreKept env now.today now.mail_id now.fresh (note ∷ []) kept.rows kept.infos
store_attachments-AreKept_example =
    store_attachments-AreKept env now.today now.mail_id now.fresh (note ∷ []) kept one_config
      written all_kept

abbrev queued_world : World services
queued_world = (send env (some encryption) context now (ok request) one_config).0

answer :
    send env (some encryption) context now (ok request) one_config
    ≡ (queued_world, mail_queued (text "a1"))
unfolding text_eq to_lower has_suffix in_domain get_by_sender_email find_stored_config
    find_sender_config exceeds write store_attachments new_mail publish publish_mail set_status
    enqueue create_and_enqueue submit respond send
answer = refl

send_sound_example :
    IsQueued env (some encryption) context now request one_config queued_world (text "a1")
send_sound_example =
    send_sound env (some encryption) context now request one_config queued_world (text "a1") answer

abbrev evil : Text
evil = text "../../../../../../etc/passwd"

-- A name of a request that leaves the directory of the attachments.
escapes : request_path env now.today now.mail_id now.fresh evil ≡ text "/etc/passwd"
unfolding request_path join join_slash clean is_rooted split split_from resolve_all resolve go_up
    text_eq
escapes = refl

request_path_lem_example :
    request_path env now.today now.mail_id now.fresh evil
    ≡ absolute (
        resolve_all true
          (elements (directory env.config.attachment_path now.today now.mail_id))
          (split b'/' evil))
unfolding is_rooted
request_path_lem_example = request_path_lem env now.today now.mail_id now.fresh evil refl

abbrev plain : SendRequest
plain = record request { attachments = [] }

abbrev nows : ℕ → Now
nows n = record now { mail_id = n ∷ [] }

abbrev two_entries : List BatchEntry
two_entries = entry_queued (0 ∷ []) ∷ entry_queued (1 ∷ []) ∷ []

abbrev batch_world : World services
batch_world = (send_batch env context nows (text "b1") (ok (plain ∷ plain ∷ [])) one_config).0

batch_answer :
    send_batch env context nows (text "b1") (ok (plain ∷ plain ∷ [])) one_config
    ≡ (batch_world, batch (text "b1") two_entries)
unfolding send_batch process_mails process_single_mail batch_entry store_attachments new_mail
    publish publish_mail set_status text_eq enqueue create_and_enqueue submit
batch_answer = refl

send_batch-AreReported_example :
    (client_id : Text) × ((client_name : Text) × ((some (text_claim (text "client_1"))
          ≡ some (text_claim client_id))
        × ((jobs : List Text) × (AreReported env client_id client_name nows 0
                (plain ∷ plain ∷ [])
                two_entries
                jobs
              × (batch_world.broker (text "mail-queue") ≡ jobs)))))
send_batch-AreReported_example =
    send_batch-AreReported env context nows (text "b1") (plain ∷ plain ∷ []) two_entries one_config
      batch_world (text "b1") batch_answer
