-- ===== src/Api/Attachments/Laws.antt =====
-- What the loop over the attachments of a request stores, and what it leaves alone.
use email_proxy.Prelude.{
  ℕ, ◌*◌, ◌≤◌, ◌≡◌, refl, sym, ap, ◌∙◌, false, List, [], ◌∷◌, ◌++◌, arith, length, inl, inr,
  Bool-cases, Option-cases, append_assoc, append-nil, true,
}
use mathlib.Core.Path.{subst}
use email_proxy.Prelude.Results.{ok, Result-cases}
use email_proxy.Text.{Text, split}
use email_proxy.FilePath.{is_rooted, resolve_all}
use email_proxy.FilePath.Laws.{elements, absolute, directory, in_directory_lem}
use email_proxy.Models.{Attachment, AttachmentInfo}
use email_proxy.Services.{Env, World}
use email_proxy.Api.Attachments.{
  AttachmentRequest, Gathered, stored, exceeds, request_path, write, gather, store_attachments,
}

module _ (e : Env) (today mail_id : Text) (fresh : ℕ → Text) where
  -- The row and the entry of the job for one attachment.
  pub record IsKept (a : AttachmentRequest) (row : Attachment) (info : AttachmentInfo)
      : Type 0 where
    pub content : Text
    pub decoded : e.platform.base64_decode a.content ≡ ok content
    pub fits : length content ≤ e.config.max_attachment_size_mb * 1024 * 1024
    pub size : row.size_bytes ≡ length content
    pub owner : row.mail_id ≡ mail_id
    pub names : (row.filename ≡ a.filename) × (info.filename ≡ a.filename)
    pub types : (row.content_type ≡ a.content_type) × (info.content_type ≡ a.content_type)
    pub paths :
        (row.storage_path ≡ request_path e today mail_id fresh a.filename)
        × (info.storage_path ≡ row.storage_path)

  -- One row and one entry for each attachment, in their order.
  pub data AreKept : List AttachmentRequest → List Attachment → List AttachmentInfo → Type 0 where
    done : AreKept [] [] []
    keep :
        (a : AttachmentRequest) (row : Attachment) (info : AttachmentInfo)
        (rest : List AttachmentRequest) (rows : List Attachment) (infos : List AttachmentInfo)
        → IsKept a row info
        → AreKept rest rows infos
        → AreKept (a ∷ rest) (row ∷ rows) (info ∷ infos)

  -- The database, the cache and the broker are as they were.
  pub record SameBut (w w' : World e.services) : Type 0 where
    pub same_db : w'.db ≡ w.db
    pub same_cache : w'.cache ≡ w.cache
    pub same_broker : w'.broker ≡ w.broker

  write-SameBut :
      (path content : Text) (w : World e.services)
      → SameBut w (write e today mail_id fresh path content w).0
  unfolding write
  write-SameBut path content w = record {
    same_db = ground arith;
    same_cache = ground arith;
    same_broker = ground arith;
  }

  store_step :
      (a : AttachmentRequest) (rest : List AttachmentRequest) (g g' : Gathered)
      (w w' : World e.services)
      → store_attachments e today mail_id fresh (a ∷ rest) g w ≡ (w', stored g')
      → (content : Text) × (e.platform.base64_decode a.content ≡ ok content)
        × (exceeds e content ≡ false)
        × (store_attachments e today mail_id fresh rest
              (gather e today mail_id fresh a content g)
              (write e today mail_id fresh
                (request_path e today mail_id fresh a.filename)
                content
                w).0
            ≡ (w', stored g'))
  unfolding store_attachments
  store_step a rest g g' w w' h = elim (Result-cases (e.platform.base64_decode a.content)) [
    | inl (content, decoded) ↦ (content, decoded, ground arith, ground arith)
    | inr (cause, bad) ↦ absurd (ground arith)
  ]

  SameBut-trans : {u v w : World e.services} → SameBut u v → SameBut v w → SameBut u w
  SameBut-trans h k = record {
    same_db = k.same_db ∙ h.same_db;
    same_cache = k.same_cache ∙ h.same_cache;
    same_broker = k.same_broker ∙ h.same_broker;
  }

  moved : {w v v' : World e.services} → v' ≡ v → SameBut w v → SameBut w v'
  moved {w} h k = subst (SameBut w) (sym h) k

  unchanged : {w v : World e.services} → v ≡ w → SameBut w v
  unchanged h = moved h (record { same_db = refl; same_cache = refl; same_broker = refl })

  -- A loop that ends without a refusal has changed the file system only.
  pub store_attachments-SameBut :
      (requests : List AttachmentRequest) (g : Gathered) (w : World e.services)
      → SameBut w (store_attachments e today mail_id fresh requests g w).0
  unfolding store_attachments
  store_attachments-SameBut [] g w = record {
    same_db = refl;
    same_cache = refl;
    same_broker = refl;
  }
  store_attachments-SameBut (a ∷ rest) g w =
      elim (Result-cases (e.platform.base64_decode a.content)) [
        | inr (cause, bad) ↦ unchanged (ground arith)
        | inl (content, decoded) ↦
            let after =
              write e today mail_id fresh (request_path e today mail_id fresh a.filename) content
                w in
            let wrote = write-SameBut (request_path e today mail_id fresh a.filename) content w in
            let kept = gather e today mail_id fresh a content g in
            elim (Bool-cases (exceeds e content)) [
              | inl big ↦ unchanged (ground arith)
              | inr fits ↦ elim (Option-cases after.1) [
                | inl saved ↦
                    moved (ground arith)
                      (SameBut-trans wrote (store_attachments-SameBut rest kept after.0))
                | inr (r, problem) ↦ moved (ground arith) wrote
              ]
            ]
      ]

  gather_last :
      (a : AttachmentRequest) (content : Text) (g : Gathered)
      → (row : Attachment) × (info : AttachmentInfo) × ((gather e today mail_id fresh a content
            g).rows
          ≡ g.rows ++ row ∷ [])
        × ((gather e today mail_id fresh a content g).infos ≡ g.infos ++ info ∷ [])
        × (e.platform.base64_decode a.content ≡ ok content
            → exceeds e content ≡ false
            → IsKept a row info)
  unfolding gather exceeds
  gather_last a content g = (
    _,
    _,
    refl,
    refl,
    λ decoded fits. record {
      content = content;
      decoded = decoded;
      fits = ground arith;
      size = refl;
      owner = refl;
      names = (refl, refl);
      types = (refl, refl);
      paths = (refl, refl);
    },
  )

  collects :
      (requests : List AttachmentRequest) (g g' : Gathered) (w w' : World e.services)
      → store_attachments e today mail_id fresh requests g w ≡ (w', stored g')
      → (rows : List Attachment) × (infos : List AttachmentInfo) × (g'.rows ≡ g.rows ++ rows)
        × (g'.infos ≡ g.infos ++ infos)
        × AreKept requests rows infos
  unfolding store_attachments
  collects [] g g' w w' h =
      ([], [], ground (arith, append-nil g.rows), ground (arith, append-nil g.infos), done)
  collects (a ∷ rest) g g' w w' h =
      let (content, decoded, fits, after) = store_step a rest g g' w w' h in
      let (row, info, last_row, last_info, kept) = gather_last a content g in
      let (rows, infos, rows_are, infos_are, others) =
        collects rest (gather e today mail_id fresh a content g) g' _ w' after in
      (
        row ∷ rows,
        info ∷ infos,
        rows_are ∙ ap (λ l. l ++ rows) last_row ∙ append_assoc g.rows (row ∷ []) rows,
        infos_are ∙ ap (λ l. l ++ infos) last_info ∙ append_assoc g.infos (info ∷ []) infos,
        keep a row info rest rows infos (kept decoded fits) others,
      )

  -- If the loop refuses no attachment, then for each one, in order, the mail has a row and the job
  -- has an entry: its content is valid base64 and within the limit, the row's size is that of the
  -- content, and both name the path of the request.
  pub store_attachments-AreKept :
      (requests : List AttachmentRequest) (g : Gathered) (w w' : World e.services)
      → store_attachments e today mail_id fresh requests (record { rows = []; infos = [] }) w
        ≡ (w', stored g)
      → AreKept requests g.rows g.infos
  store_attachments-AreKept requests g w w' h =
      let (rows, infos, rows_are, infos_are, kept) =
        collects requests (record { rows = []; infos = [] }) g w w' h in
      rw rows_are (rw infos_are kept)

-- With an absolute attachment path, the path of an attachment of a request resolves every element
-- of the name that the client sent against the directory of the mail, ".." included.
pub request_path_lem :
    (e : Env) (today mail_id : Text) (fresh : ℕ → Text) (filename : Text)
    → is_rooted e.config.attachment_path ≡ true
    → request_path e today mail_id fresh filename
      ≡ absolute (
          resolve_all true
            (elements (directory e.config.attachment_path today mail_id))
            (split b'/' filename))
unfolding request_path
request_path_lem e today mail_id fresh filename h =
    in_directory_lem e.config.attachment_path today mail_id filename h
