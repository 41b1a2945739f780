-- ===== src/Senders.antt =====
-- internal/services/smtp_service.go and internal/services/sendgrid_service.go: sending a mail through
-- Microsoft Graph or through SendGrid. What the two services have in common stands here.
pub mod Graph
pub mod Sendgrid
pub mod Process
pub mod Laws
pub mod Attempts
use email_proxy.Prelude.{List, [], ◌∷◌, ◌++◌}
use email_proxy.Prelude.Results.{Result, ok, err}
use email_proxy.Text.{Text, text}
use email_proxy.Models.{AttachmentInfo}
use email_proxy.FilePath.{base}
use email_proxy.Services.{Env, World}

-- An attachment as both services get it: the base name of its file name, its content in base64,
-- and its type, which is that of any bytes if none was given.
pub record Loaded : Type 0 where
  pub name : Text
  pub content_type : Text
  pub content : Text

unfoldable pub content_type_or_default : Text → Text
content_type_or_default [] = text "application/octet-stream"
content_type_or_default (c ∷ s) = c ∷ s

module _ (e : Env) (w : World e.services) where
  unfoldable pub load_attachment : AttachmentInfo → Result Loaded
  load_attachment a = elim (e.services.read_file a.storage_path w.files) [
    | err cause ↦ err (text "failed to read attachment " ++ a.filename ++ text ": " ++ cause)
    | ok content ↦ ok (record {
      name = base a.filename;
      content_type = content_type_or_default a.content_type;
      content = e.platform.base64_encode content;
    })
  ]

  -- The loop of `loadAttachments`. The first file that cannot be read ends it.
  unfoldable pub load_attachments : List AttachmentInfo → Result (List Loaded)
  load_attachments [] = ok []
  load_attachments (a ∷ rest) =
      let others = load_attachments rest in
      elim (load_attachment a) [
        | err cause ↦ err cause
        | ok loaded ↦ elim others [ err cause ↦ err cause | ok all ↦ ok (loaded ∷ all) ]
      ]
