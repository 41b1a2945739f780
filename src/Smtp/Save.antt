-- ===== src/Smtp/Save.antt =====
-- internal/smtp/session.go `saveAttachmentWithMailID`: an attachment in the file system.
use email_proxy.Prelude.{List, [], ◌∷◌, ◌++◌, none, some}
use email_proxy.Prelude.Results.{Result, ok, err}
use email_proxy.Text.{Text, text}
use email_proxy.Models.{Attachment}
use email_proxy.FilePath.{join, base, dir}
use email_proxy.Services.{Env, World}

module _ (e : Env) (today mail_id : Text) where
  -- `today` is time.Now().Format("2006/01/02").
  unfoldable pub storage_path : Text → Text
  storage_path filename = join (e.config.attachment_path ∷ today ∷ mail_id ∷ base filename ∷ [])

  -- os.MkdirAll, then os.WriteFile.
  unfoldable pub save_attachment : Text → Text → World e.services → World e.services × Result Text
  save_attachment filename content w =
      let path = storage_path filename in
      let (made, no_directory) = e.services.mkdir_all (dir path) w.files in
      elim no_directory [
        | some cause ↦ (
          record w { files = made },
          err (text "failed to create attachment directory: " ++ cause),
        )
        | none ↦
            let (written, not_written) = e.services.write_file path content made in
            (
              record w { files = written },
              elim not_written [
                | some cause ↦ err (text "failed to write attachment file: " ++ cause)
                | none ↦ ok path
              ],
            )
      ]

  abbrev with_path : Attachment → Result Text → Attachment
  with_path a (ok path) = record a { mail_id = mail_id; storage_path = path }
  with_path a (err _) = record a { mail_id = mail_id }

  -- The loop over the attachments: one that cannot be saved keeps an empty path.
  unfoldable pub save_all :
      List (Attachment × Text) → World e.services → World e.services × List Attachment
  save_all [] w = (w, [])
  save_all ((a, content) ∷ rest) w =
      let (w', saved) = save_attachment a.filename content w in
      let (w'', others) = save_all rest w' in (w'', with_path a saved ∷ others)
