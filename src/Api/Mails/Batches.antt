-- ===== src/Api/Mails/Batches.antt =====
-- internal/api/handlers/mail_handler.go: SendBatch.
pub mod Order
use email_proxy.Prelude.{ℕ, suc, List, [], ◌∷◌, none, some}
use email_proxy.Prelude.Results.{Result, ok, err}
use email_proxy.Text.{Text, text}
use email_proxy.Models.{Mail}
use email_proxy.Services.{Env, World}
use email_proxy.Api.{
  Context, Response, failure, batch, panic, BatchEntry, entry_queued, entry_failed,
}
use email_proxy.Api.Attachments.{refusal_message}
use email_proxy.Api.Mails.{
  SendRequest, Now, as_text, both, new_mail, Ending, done, refusal, not_created, not_published,
  submit,
}

module _ (e : Env) where
  unfoldable pub batch_entry : Mail → Ending → BatchEntry
  batch_entry m (refusal r) = entry_failed none (refusal_message e r)
  batch_entry m not_created = entry_failed none (text "Failed to create mail record")
  batch_entry m not_published = entry_failed (some m.id) (text "Failed to queue mail")
  batch_entry m done = entry_queued m.id

  unfoldable pub process_single_mail :
      Text → Text → Now → SendRequest → World e.services → World e.services × BatchEntry
  process_single_mail client_id client_name now req w =
      let m = new_mail now req client_id client_name none in
      let (w', ending) = submit e now m req w in (w', batch_entry m ending)

  -- The loop of SendBatch; the times and UUIDs of the n-th mail are `nows n`.
  unfoldable pub process_mails :
      Text
      → Text
      → (ℕ → Now)
      → ℕ
      → List SendRequest
      → World e.services
      → World e.services × List BatchEntry
  process_mails client_id client_name nows n [] w = (w, [])
  process_mails client_id client_name nows n (req ∷ reqs) w =
      let (w', entry) = process_single_mail client_id client_name (nows n) req w in
      let (w'', entries) = process_mails client_id client_name nows (suc n) reqs w' in
      (w'', entry ∷ entries)

  -- `SendBatch`; the binding refuses an empty list.
  unfoldable pub send_batch :
      Context
      → (ℕ → Now)
      → Text
      → Result (List SendRequest)
      → World e.services
      → World e.services × Response
  send_batch c nows batch_id (err message) w = (w, failure 400 (text "validation_error") message)
  send_batch c nows batch_id (ok reqs) w =
      elim (both (as_text c.client_id) (as_text c.client_name)) [
        | none ↦ (w, panic)
        | some (client_id, client_name) ↦
            let (w', entries) = process_mails client_id client_name nows 0 reqs w in
            (w', batch batch_id entries)
      ]
