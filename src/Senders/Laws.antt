-- ===== src/Senders/Laws.antt =====
-- When a mail counts as sent: what stands behind the outcome `accepted` of each service, and of the
-- worker's attempt with both.
use mathlib.Core.Path.{subst}
use email_proxy.Prelude.{
  ◌≡◌, refl, ◌⊎◌, ◌↔◌, inl, inr, ◌≤◌, ◌<◌, Option-cases, List, map, [], ◌∷◌, none, arith,
}
use email_proxy.Prelude.Results.{Result, ok, err, Result-cases}
use email_proxy.Text.{Text}
use email_proxy.FilePath.{base}
use email_proxy.Models.{MailJob, AttachmentInfo}
use email_proxy.Services.{Env, World}
use email_proxy.Router.{accepted}
use email_proxy.Senders.{Loaded, content_type_or_default, load_attachment, load_attachments}
use email_proxy.Senders.Graph.{
  GraphApi, HttpResponse, http_request, graph_url, read_response, post_mail, graph_send, is_success,
}
use email_proxy.Senders.Sendgrid.{
  SgMail, SgResponse, sg_mail, sg_attachment, load_sg_attachments, read_status, sendgrid_send,
}

module _ (e : Env) (w : World e.services) where
  -- The files of a list of attachments were read, and `Loaded` holds in order what is in them.
  pub data AreLoaded : List AttachmentInfo → List Loaded → Type 0 where
    none_left : AreLoaded [] []
    file_read :
        (a : AttachmentInfo) (content : Text) (rest : List AttachmentInfo) (all : List Loaded)
        → e.services.read_file a.storage_path w.files ≡ ok content
        → AreLoaded rest all
        → AreLoaded (a ∷ rest) (
            record {
              name = base a.filename;
              content_type = content_type_or_default a.content_type;
              content = e.platform.base64_encode content;
            }
            ∷ all)

  pub load_attachments-AreLoaded :
      (files : List AttachmentInfo) (all : List Loaded)
      → load_attachments e w files ≡ ok all
      → AreLoaded files all
  unfolding load_attachments load_attachment
  load_attachments-AreLoaded [] all h =
      let same : [] ≡ all = ground arith in subst (AreLoaded []) same none_left
  load_attachments-AreLoaded (a ∷ rest) all h =
      elim (Result-cases (e.services.read_file a.storage_path w.files)) [
        | inr (cause, bad) ↦ absurd (ground arith)
        | inl (content, is_read) ↦ elim (Result-cases (load_attachments e w rest)) [
          | inr (cause, bad) ↦ absurd (ground arith)
          | inl (others, loaded) ↦
              let same : (record {
                name = base a.filename;
                content_type = content_type_or_default a.content_type;
                content = e.platform.base64_encode content;
              }
                    ∷ others)
                  ≡ all =
                ground arith in
              subst (AreLoaded (a ∷ rest)) same (
                file_read a content rest others is_read
                  (load_attachments-AreLoaded rest others loaded))
        ]
      ]

  pub AreLoaded-load_attachments :
      (files : List AttachmentInfo) (all : List Loaded)
      → AreLoaded files all
      → load_attachments e w files ≡ ok all
  unfolding load_attachments load_attachment
  AreLoaded-load_attachments files all none_left = refl
  AreLoaded-load_attachments files all (file_read a content rest others is_read more) =
      rw (load_attachments, load_attachment, is_read, AreLoaded-load_attachments rest others more)
        refl

module _ (api : GraphApi) (e : Env) (w : World e.services) where
  -- Graph answered 200 or 202 to the request for a job, with a token and the attachments.
  pub record IsTakenByGraph (token : Result Text) (job : MailJob) : Type 0 where
    pub access_token : Text
    pub loaded : List Loaded
    pub response : HttpResponse
    pub has_token : token ≡ ok access_token
    pub are_loaded : AreLoaded e w job.attachments loaded
    pub url_is_read : api.url_error (graph_url job) ≡ none
    pub answered : api.call (http_request api access_token job loaded) ≡ ok response
    pub is_accepted : (response.status ≡ 200) ⊎ (response.status ≡ 202)

  is_success_iff :
      (r : HttpResponse)
      → (read_response api (ok r) ≡ accepted) ↔ ((r.status ≡ 200) ⊎ (r.status ≡ 202))
  unfolding read_response is_success
  is_success_iff r = ground arith

  pub graph_sent :
      (token : Result Text) (job : MailJob)
      → graph_send api e w token job ≡ accepted
      → IsTakenByGraph token job
  unfolding graph_send post_mail
  graph_sent (err cause) job h = absurd (ground arith)
  graph_sent (ok token) job h = elim (Result-cases (load_attachments e w job.attachments)) [
    | inr (cause, bad) ↦ absurd (ground arith)
    | inl (all, loaded) ↦ elim (Option-cases (api.url_error (graph_url job))) [
      | inr (cause, bad) ↦ absurd (ground arith)
      | inl clear ↦ elim (Result-cases (api.call (http_request api token job all))) [
        | inr (cause, bad) ↦ absurd (unfold read_response in ground arith)
        | inl (response, answered) ↦ record {
          access_token = token;
          loaded = all;
          response = response;
          has_token = refl;
          are_loaded = load_attachments-AreLoaded e w job.attachments all loaded;
          url_is_read = clear;
          answered = answered;
          is_accepted = (is_success_iff response).0 (ground arith);
        }
      ]
    ]
  ]

  -- A mail counts as sent through Graph exactly if a token was had, every attachment was read, and
  -- Graph answered 200 or 202 to the request with the token, the mail, and the attachments in order.
  pub graph_send-accepted_iff :
      (token : Result Text) (job : MailJob)
      → (graph_send api e w token job ≡ accepted) ↔ IsTakenByGraph token job
  unfolding graph_send post_mail
  graph_send-accepted_iff token job = (
    graph_sent token job,
    λ t.
        rw
          (
            t.has_token,
            graph_send,
            AreLoaded-load_attachments e w job.attachments t.loaded t.are_loaded,
            post_mail,
            t.url_is_read,
            t.answered,
          )
          ((is_success_iff t.response).1 t.is_accepted),
  )

  -- SendGrid answered with a status from 200 to 299 to the message for a job, with the attachments.
  pub record IsTakenBySendgrid (send : SgMail → Result SgResponse) (job : MailJob) : Type 0 where
    pub loaded : List Loaded
    pub response : SgResponse
    pub are_loaded : AreLoaded e w job.attachments loaded
    pub answered : send (sg_mail job (map sg_attachment loaded)) ≡ ok response
    pub is_accepted : (200 ≤ response.status) × (response.status < 300)

  pub sendgrid_sent :
      (send : SgMail → Result SgResponse) (job : MailJob)
      → sendgrid_send send e w job ≡ accepted
      → IsTakenBySendgrid send job
  unfolding sendgrid_send load_sg_attachments
  sendgrid_sent send job h = elim (Result-cases (load_attachments e w job.attachments)) [
    | inr (cause, bad) ↦ absurd (ground arith)
    | inl (all, loaded) ↦ elim (Result-cases (send (sg_mail job (map sg_attachment all)))) [
      | inr (cause, bad) ↦ absurd (unfold read_status in ground arith)
      | inl (response, answered) ↦ record {
        loaded = all;
        response = response;
        are_loaded = load_attachments-AreLoaded e w job.attachments all loaded;
        answered = answered;
        is_accepted = unfold read_status in ground arith;
      }
    ]
  ]
