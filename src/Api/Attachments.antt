-- ===== src/Api/Attachments.antt =====
-- internal/api/handlers/mail_handler.go: the attachments of a request, which Send and
-- processSingleMail treat alike.
pub mod Laws
use email_proxy.Prelude.{
  Bool, ℕ, ◌*◌, ◌++◌, List, [], ◌∷◌, Option, none, some, length, ltb, if◌then◌else◌,
}
use email_proxy.Prelude.Results.{ok, err}
use email_proxy.Text.{Text, text, decimal}
use email_proxy.Models.{Attachment, AttachmentInfo}
use email_proxy.FilePath.{join, dir}
use email_proxy.Services.{Env, World}

pub record AttachmentRequest : Type 0 where
  pub filename : Text
  -- base64
  pub content : Text
  pub content_type : Text

-- Why an attachment is refused; the name is that of the attachment.
pub data Refusal : Type 0 where
  invalid_base64 : Text → Refusal
  too_large : Text → Refusal
  no_directory : Refusal
  not_saved : Refusal

-- What the loop has gathered: the rows, and what the job says about them.
pub record Gathered : Type 0 where
  pub rows : List Attachment
  pub infos : List AttachmentInfo

pub data Stored : Type 0 where
  stored : Gathered → Stored
  refused : Refusal → Stored

-- A megabyte is 1024 * 1024 bytes. The source divides the size as a float64 by 1024 twice, which is
-- exact.
unfoldable pub exceeds : Env → Text → Bool
exceeds e content = ltb (e.config.max_attachment_size_mb * 1024 * 1024) (length content)

unfoldable pub refusal_message : Env → Refusal → Text
refusal_message e (invalid_base64 filename) = text "Invalid base64 content for " ++ filename
refusal_message e (too_large filename) =
    filename
    ++ text " exceeds maximum size of "
    ++ decimal e.config.max_attachment_size_mb
    ++ text "MB"
refusal_message e no_directory = text "Failed to create attachment directory"
refusal_message e not_saved = text "Failed to save attachment"

-- The UUIDs of the rows are `fresh`; `today` is time.Now().Format("2006/01/02").
module _ (e : Env) (today mail_id : Text) (fresh : ℕ → Text) where
  unfoldable pub request_path : Text → Text
  request_path filename = join (e.config.attachment_path ∷ today ∷ mail_id ∷ filename ∷ [])

  -- os.MkdirAll, then os.WriteFile: the files, and the refusal if there is one.
  unfoldable pub write : Text → Text → World e.services → World e.services × Option Refusal
  write path content w =
      let (made, not_made) = e.services.mkdir_all (dir path) w.files in
      elim not_made [
        | some _ ↦ (record w { files = made }, some no_directory)
        | none ↦
            let (written, not_written) = e.services.write_file path content made in
            (
              record w { files = written },
              elim not_written [ some _ ↦ some not_saved | none ↦ none ],
            )
      ]

  -- The job's entry has no size.
  unfoldable pub gather : AttachmentRequest → Text → Gathered → Gathered
  gather a content g = record {
    rows =
        g.rows
        ++ (record {
          id = fresh (length g.rows);
          mail_id = mail_id;
          filename = a.filename;
          content_type = a.content_type;
          size_bytes = length content;
          storage_path = request_path a.filename;
        })
          ∷ [];
    infos =
        g.infos
        ++ (record {
          filename = a.filename;
          content_type = a.content_type;
          size_bytes = 0;
          storage_path = request_path a.filename;
        })
          ∷ [];
  }

  -- The loop. The first refusal ends it, and the files that were written stay.
  unfoldable pub store_attachments :
      List AttachmentRequest → Gathered → World e.services → World e.services × Stored
  store_attachments [] g w = (w, stored g)
  store_attachments (a ∷ rest) g w = elim (e.platform.base64_decode a.content) [
    | err _ ↦ (w, refused (invalid_base64 a.filename))
    | ok content ↦
        let next = λ (w' : World e.services). store_attachments rest (gather a content g) w' in
        if exceeds e content
        then (w, refused (too_large a.filename))
        else (let (w', problem) = write (request_path a.filename) content w in
            elim problem [ some r ↦ (w', refused r) | none ↦ next w' ])
  ]
