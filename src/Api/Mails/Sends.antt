-- ===== src/Api/Mails/Sends.antt =====
-- What an answer that a mail was queued promises.
use email_proxy.Prelude.{
  ◌≡◌, refl, sym, ap, ◌∙◌, ◌⊎◌, inl, inr, [], ◌∷◌, ◌++◌, Option, some, arith, Option-cases,
}
use email_proxy.Prelude.Results.{ok}
use email_proxy.Text.{Text}
use email_proxy.Text.Laws.{text_eq_refl}
use email_proxy.Models.{Mail}
use email_proxy.Services.{Env, World}
use email_proxy.Keydb.{set_status}
use email_proxy.Queue.{publish, publish_mail, json_message}
use email_proxy.Encryption.{EncryptionService}
use email_proxy.Api.{text_claim, Context, Response, mail_queued}
use email_proxy.Api.Attachments.{Gathered, Refusal, Stored, stored, refused, store_attachments}
use email_proxy.Api.Attachments.Laws.{AreKept, store_attachments-SameBut, store_attachments-AreKept}
use email_proxy.Api.Mails.Choices.{as_text_sound, answers_no_mail}
use email_proxy.Api.Mails.{
  SendRequest, Now, as_text, new_mail, new_job, Choice, chosen, answered, Ending, done, refusal,
  not_created, not_published, enqueue, create_and_enqueue, submit, respond, find_sender_config,
  send,
}

pub Stored-cases :
    (s : Stored) → ((g : Gathered) × (s ≡ stored g)) ⊎ ((r : Refusal) × (s ≡ refused r))
Stored-cases (stored g) = inl (g, refl)
Stored-cases (refused r) = inr (r, refl)

Choice-cases :
    (x : Choice)
    → ((r : Response) × (x ≡ answered r)) ⊎ ((config : Option Text) × (x ≡ chosen config))
Choice-cases (answered r) = inl (r, refl)
Choice-cases (chosen config) = inr (config, refl)

module _ (e : Env) where
  enqueue_sound :
      (now : Now) (m : Mail) (g : Gathered) (w : World e.services)
      → (enqueue e now m g w).1 ≡ done
      → ((enqueue e now m g w).0.db ≡ w.db)
        × (e.services.waiting e.config.mail_queue_name (enqueue e now m g w).0.broker
            ≡ e.services.waiting e.config.mail_queue_name w.broker
              ++ e.platform.marshal_job (new_job m g) ∷ [])
  unfolding enqueue publish_mail publish set_status
  enqueue_sound now m g w h =
      let body = e.platform.marshal_job (new_job m g) in
      let message = json_message e.config.mail_queue_name [] body in
      let law = e.services.waiting-publish message w.broker e.config.mail_queue_name in
      ground (arith, law, text_eq_refl e.config.mail_queue_name)

  create_sound :
      (now : Now) (m : Mail) (g : Gathered) (w : World e.services)
      → (create_and_enqueue e now m g w).1 ≡ done
      → (e.services.row m.id (create_and_enqueue e now m g w).0.db
          ≡ some (record m { attachments = g.rows }))
        × (e.services.waiting e.config.mail_queue_name (create_and_enqueue e now m g w).0.broker
            ≡ e.services.waiting e.config.mail_queue_name w.broker
              ++ e.platform.marshal_job (new_job m g) ∷ [])
  unfolding create_and_enqueue new_job
  create_sound now m g w h =
      let row = record m { attachments = g.rows } in
      let created = record w { db = (e.services.create_mail row w.db).0 } in
      elim (Option-cases (e.services.create_mail row w.db).1) [
        | inr (cause, bad) ↦ absurd (ground arith)
        | inl good ↦
            let same : create_and_enqueue e now m g w ≡ enqueue e now row g created =
              ground arith in
            let (kept, sent) = enqueue_sound now row g created (sym (ap (λ r. r.1) same) ∙ h) in
            let law = e.services.row-create row w.db m.id in
            (
              ap (λ r. e.services.row m.id r.0.db) same
                  ∙ ap (e.services.row m.id) kept
                  ∙ ground (arith, law, text_eq_refl m.id),
              ap (λ r. e.services.waiting e.config.mail_queue_name r.0.broker) same ∙ sent,
            )
      ]

  -- What Send has done when it answers that the mail `id` is queued.
  pub record IsQueued (service : Option EncryptionService) (c : Context) (now : Now)
      (req : SendRequest) (w w' : World e.services) (id : Text) : Type 0 where
    pub client_id : Text
    pub client_name : Text
    pub config : Option Text
    pub gathered : Gathered
    pub id_is : id ≡ now.mail_id
    pub client_is : c.client_id ≡ some (text_claim client_id)
    pub config_is : find_sender_config e service c req.from w ≡ chosen config
    pub kept :
        AreKept e now.today now.mail_id now.fresh req.attachments gathered.rows gathered.infos
    pub row_is :
        e.services.row id w'.db
        ≡ some
            (record (new_mail now req client_id client_name config) { attachments = gathered.rows })
    pub message_is :
        e.services.waiting e.config.mail_queue_name w'.broker
        ≡ e.services.waiting e.config.mail_queue_name w.broker
          ++ e.platform.marshal_job
              (new_job (new_mail now req client_id client_name config) gathered)
            ∷ []

  pub submit_sound :
      (now : Now) (m : Mail) (req : SendRequest) (w : World e.services)
      → (submit e now m req w).1 ≡ done
      → (g : Gathered) × AreKept e now.today m.id now.fresh req.attachments g.rows g.infos
        × (e.services.row m.id (submit e now m req w).0.db
            ≡ some (record m { attachments = g.rows }))
        × (e.services.waiting e.config.mail_queue_name (submit e now m req w).0.broker
            ≡ e.services.waiting e.config.mail_queue_name w.broker
              ++ e.platform.marshal_job (new_job m g) ∷ [])
  unfolding submit
  submit_sound now m req w h =
      let r =
        store_attachments e now.today m.id now.fresh req.attachments
          (record { rows = []; infos = [] }) w in
      elim (Stored-cases r.1) [
        | inr (cause, refusal_is) ↦ absurd (ground arith)
        | inl (g, all_kept) ↦
            let same : submit e now m req w ≡ create_and_enqueue e now m g r.0 = ground arith in
            let (row, sent) = create_sound now m g r.0 (sym (ap (λ x. x.1) same) ∙ h) in
            let but =
              store_attachments-SameBut e now.today m.id now.fresh req.attachments
                (record { rows = []; infos = [] }) w in
            (
              g,
              store_attachments-AreKept e now.today m.id now.fresh req.attachments g w r.0
                  (ap (λ x. (r.0, x)) all_kept),
              ap (λ x. e.services.row m.id x.0.db) same ∙ row,
              ap (λ x. e.services.waiting e.config.mail_queue_name x.0.broker) same
                  ∙ sent
                  ∙ ap
                      (λ b.
                        e.services.waiting e.config.mail_queue_name b
                        ++ e.platform.marshal_job (new_job m g) ∷ [])
                      but.same_broker,
            )
      ]

  respond_sound :
      (m : Mail) (x : Ending) (id : Text)
      → respond e m x ≡ mail_queued id
      → (x ≡ done) × (id ≡ m.id)
  unfolding respond
  respond_sound m (refusal r) id h = cc
  respond_sound m not_created id h = cc
  respond_sound m not_published id h = cc
  respond_sound m done id h = (refl, ground arith)

  -- If Send answers that a mail is queued, then each of its attachments was accepted, its row is stored
  -- with status queued for the client of the request, and its message stands last in the mail queue.
  pub send_sound :
      (service : Option EncryptionService) (c : Context) (now : Now) (req : SendRequest)
      (w w' : World e.services) (id : Text)
      → send e service c now (ok req) w ≡ (w', mail_queued id)
      → IsQueued service c now req w w' id
  unfolding send new_mail
  send_sound service c now req w w' id h =
      elim (Choice-cases (find_sender_config e service c req.from w)) [
        | inl (answer, stops) ↦
            let same : answer ≡ mail_queued id = ground arith in
            absurd (answers_no_mail e service c req.from w id (stops ∙ ap answered same))
        | inr (config, config_is) ↦ elim (Option-cases (as_text c.client_id)) [
          | inl missing ↦ absurd (ground arith)
          | inr (client_id, is) ↦ elim (Option-cases (as_text c.client_name)) [
            | inl missing ↦ absurd (ground arith)
            | inr (client_name, name_is) ↦
                let m = new_mail now req client_id client_name config in
                let sub = submit e now m req w in
                let facts : (sub.0 ≡ w') × (respond e m sub.1 ≡ mail_queued id) = ground arith in
                let (ended, id_is) = respond_sound m sub.1 id facts.1 in
                let (g, kept, row, message) = submit_sound now m req w ended in
                record {
                  client_id = client_id;
                  client_name = client_name;
                  config = config;
                  gathered = g;
                  id_is = id_is;
                  client_is = as_text_sound c.client_id client_id is;
                  config_is = config_is;
                  kept = kept;
                  row_is =
                      ap (λ i. e.services.row i w'.db) id_is
                      ∙ ap (λ x. e.services.row now.mail_id x.db) (sym facts.0)
                      ∙ row;
                  message_is =
                      ap (λ x. e.services.waiting e.config.mail_queue_name x.broker) (sym facts.0)
                      ∙ message;
                }
          ]
        ]
      ]
