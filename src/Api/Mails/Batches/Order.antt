-- ===== src/Api/Mails/Batches/Order.antt =====
-- What a batch puts into the mail queue.
use mathlib.Core.Path.{sym, ap, subst}
use email_proxy.Prelude.{
  ℕ, suc, ◌≡◌, ◌≢◌, refl, ◌∙◌, ◌⊎◌, inl, inr, List, [], ◌∷◌, ◌++◌, append_assoc, append-nil, Option,
  none, some, arith, Option-cases,
}
use email_proxy.Prelude.Results.{ok}
use email_proxy.Text.{Text}
use email_proxy.Models.{Mail}
use email_proxy.Services.{Env, World}
use email_proxy.Keydb.{set_status}
use email_proxy.Queue.{publish, publish_mail, json_message}
use email_proxy.Api.{text_claim, Context, BatchEntry, entry_queued, entry_failed, batch}
use email_proxy.Api.Attachments.{Gathered, store_attachments}
use email_proxy.Api.Attachments.Laws.{AreKept, store_attachments-SameBut}
use email_proxy.Api.Mails.Choices.{as_text_sound}
use email_proxy.Api.Mails.{
  SendRequest, Now, as_text, new_mail, new_job, Ending, done, refusal, not_created, not_published,
  enqueue, create_and_enqueue, submit,
}
use email_proxy.Api.Mails.Sends.{Stored-cases, submit_sound}
use email_proxy.Api.Mails.Batches.{batch_entry, process_single_mail, process_mails, send_batch}

module _ (e : Env) where
  abbrev in_queue : World e.services → List Text
  in_queue w = e.services.waiting e.config.mail_queue_name w.broker

  -- A mail that is not queued leaves the mail queue as it was.
  abbrev IsQuiet : World e.services → World e.services × Ending → Type 0
  IsQuiet w r = (r.1 ≡ done) ⊎ ((r.1 ≢ done) × (in_queue r.0 ≡ in_queue w))

  enqueue-IsQuiet :
      (now : Now) (m : Mail) (g : Gathered) (w : World e.services) → IsQuiet w (enqueue e now m g w)
  unfolding enqueue publish_mail publish set_status
  enqueue-IsQuiet now m g w =
      let message =
        json_message e.config.mail_queue_name [] (e.platform.marshal_job (new_job m g)) in
      let law = e.services.waiting-publish message w.broker e.config.mail_queue_name in
      elim (Option-cases (e.services.publish message w.broker).1) [
        | inl good ↦ inl (ground arith)
        | inr (cause, bad) ↦ inr (ground (arith, law))
      ]

  create-IsQuiet :
      (now : Now) (m : Mail) (g : Gathered) (w : World e.services)
      → IsQuiet w (create_and_enqueue e now m g w)
  unfolding create_and_enqueue
  create-IsQuiet now m g w =
      let row = record m { attachments = g.rows } in
      let created = record w { db = (e.services.create_mail row w.db).0 } in
      elim (Option-cases (e.services.create_mail row w.db).1) [
        | inr (cause, bad) ↦ inr (ground arith)
        | inl good ↦
            let same : create_and_enqueue e now m g w ≡ enqueue e now row g created =
              ground arith in
            subst (IsQuiet w) (sym same) (enqueue-IsQuiet now row g created)
      ]

  submit-IsQuiet :
      (now : Now) (m : Mail) (req : SendRequest) (w : World e.services)
      → IsQuiet w (submit e now m req w)
  unfolding submit
  submit-IsQuiet now m req w =
      let r =
        store_attachments e now.today m.id now.fresh req.attachments
          (record { rows = []; infos = [] }) w in
      let but =
        store_attachments-SameBut e now.today m.id now.fresh req.attachments
          (record { rows = []; infos = [] }) w in
      let same_queue : in_queue r.0 ≡ in_queue w =
        ap (e.services.waiting e.config.mail_queue_name) but.same_broker in
      elim (Stored-cases r.1) [
        | inr (cause, refusal_is) ↦
            let same : submit e now m req w ≡ (r.0, refusal cause) = ground arith in
            subst (IsQuiet w) (sym same) (inr ((λ h. cc), same_queue))
        | inl (g, all_kept) ↦
            let same : submit e now m req w ≡ create_and_enqueue e now m g r.0 = ground arith in
            subst (IsQuiet w) (sym same) (elim (create-IsQuiet now m g r.0) [
              | inl ended ↦ inl ended
              | inr (other, kept) ↦ inr (other, kept ∙ same_queue)
            ])
      ]

  entry_of :
      (m : Mail) (x : Ending)
      → x ≢ done
      → (id : Option Text) × ((error : Text) × (batch_entry e m x ≡ entry_failed id error))
  unfolding batch_entry
  entry_of m (refusal r) h = (_, (_, refl))
  entry_of m not_created h = (_, (_, refl))
  entry_of m not_published h = (_, (_, refl))
  entry_of m done h = absurd (h refl)

  done_entry :
      (now : Now) (req : SendRequest) (client_id client_name : Text)
      → batch_entry e (new_mail now req client_id client_name none) done ≡ entry_queued now.mail_id
  unfolding batch_entry new_mail
  done_entry now req client_id client_name = refl

  module _ (client_id client_name : Text) (nows : ℕ → Now) where
    -- From the n-th mail of a batch on: the entries of the answer, and the jobs of those mails that are
    -- reported as queued, in order, with the attachments that were kept. Every other mail is reported as failed.
    pub data AreReported : ℕ → List SendRequest → List BatchEntry → List Text → Type 0 where
      no_more : (n : ℕ) → AreReported n [] [] []
      reported_queued :
          (n : ℕ) (req : SendRequest) (g : Gathered) (reqs : List SendRequest)
          (entries : List BatchEntry) (jobs : List Text)
          → AreKept e (nows n).today (nows n).mail_id (nows n).fresh req.attachments g.rows g.infos
          → AreReported (suc n) reqs entries jobs
          → AreReported n (req ∷ reqs) (entry_queued (nows n).mail_id ∷ entries) (
              e.platform.marshal_job (new_job (new_mail (nows n) req client_id client_name none) g)
              ∷ jobs)
      reported_failed :
          (n : ℕ) (req : SendRequest) (id : Option Text) (error : Text) (reqs : List SendRequest)
          (entries : List BatchEntry) (jobs : List Text)
          → AreReported (suc n) reqs entries jobs
          → AreReported n (req ∷ reqs) (entry_failed id error ∷ entries) jobs

    process_mails-AreReported :
        (n : ℕ) (reqs : List SendRequest) (w : World e.services)
        → let r = process_mails e client_id client_name nows n reqs w in
          (jobs : List Text) × (AreReported n reqs r.1 jobs × (in_queue r.0 ≡ in_queue w ++ jobs))
    unfolding process_mails process_single_mail
    process_mails-AreReported n [] w = ([], (no_more n, sym (append-nil (in_queue w))))
    process_mails-AreReported n (req ∷ reqs) w =
        let m = new_mail (nows n) req client_id client_name none in
        let first = submit e (nows n) m req w in
        let (jobs, (rest_is, grown)) = process_mails-AreReported (suc n) reqs first.0 in
        elim (submit-IsQuiet (nows n) m req w) [
          | inl ended ↦
              let (g, kept, row, message) = submit_sound e (nows n) m req w ended in
              let body = e.platform.marshal_job (new_job m g) in
              let entries = (process_mails e client_id client_name nows (suc n) reqs first.0).1 in
              let entry_is : batch_entry e m first.1 ≡ entry_queued (nows n).mail_id =
                ap (batch_entry e m) ended ∙ done_entry (nows n) req client_id client_name in
              (
                body ∷ jobs,
                (
                  subst (λ x. AreReported n (req ∷ reqs) (x ∷ entries) (body ∷ jobs)) (sym entry_is)
                      (reported_queued n req g reqs entries jobs (unfold new_mail in kept) rest_is),
                  grown
                      ∙ (ap (λ q. q ++ jobs) message ∙ append_assoc (in_queue w) (body ∷ []) jobs),
                ),
              )
          | inr (other, kept) ↦
              let entries = (process_mails e client_id client_name nows (suc n) reqs first.0).1 in
              let (id, (error, entry_is)) = entry_of m first.1 other in
              (
                jobs,
                (
                  subst (λ x. AreReported n (req ∷ reqs) (x ∷ entries) jobs) (sym entry_is)
                      (reported_failed n req id error reqs entries jobs rest_is),
                  grown ∙ ap (λ q. q ++ jobs) kept,
                ),
              )
        ]

  -- The answer of SendBatch has one entry for each mail in order, and the mail queue receives, in this
  -- order and behind what it holds, exactly the jobs of the mails that are reported as queued.
  pub send_batch-AreReported :
      (c : Context) (nows : ℕ → Now) (batch_id : Text) (reqs : List SendRequest)
      (entries : List BatchEntry) (w w' : World e.services) (id : Text)
      → send_batch e c nows batch_id (ok reqs) w ≡ (w', batch id entries)
      → (client_id : Text) × ((client_name : Text) × ((c.client_id ≡ some (text_claim client_id))
            × ((jobs : List Text) × (AreReported client_id client_name nows 0 reqs entries jobs
                  × (in_queue w' ≡ in_queue w ++ jobs)))))
  unfolding send_batch
  send_batch-AreReported c nows batch_id reqs entries w w' id h =
      elim (Option-cases (as_text c.client_id)) [
        | inl missing ↦ absurd (ground arith)
        | inr (client_id, is) ↦ elim (Option-cases (as_text c.client_name)) [
          | inl missing ↦ absurd (ground arith)
          | inr (client_name, name_is) ↦
              let r = process_mails e client_id client_name nows 0 reqs w in
              let facts : (r.0 ≡ w') × (r.1 ≡ entries) = ground arith in
              let (jobs, (all, grown)) =
                process_mails-AreReported client_id client_name nows 0 reqs w in
              (
                client_id,
                (
                  client_name,
                  (
                    as_text_sound c.client_id client_id is,
                    (
                      jobs,
                      (
                        subst (λ es. AreReported client_id client_name nows 0 reqs es jobs) facts.1
                            all,
                        ap in_queue (sym facts.0) ∙ grown,
                      ),
                    ),
                  ),
                ),
              )
        ]
      ]
