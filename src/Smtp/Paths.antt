-- ===== src/Smtp/Paths.antt =====
-- Where the attachments of a message are stored.
use email_proxy.Prelude.{◌≡◌, ◌⊎◌, true, false, ◌∷◌}
use email_proxy.Text.{Text, text_eq}
use email_proxy.FilePath.{is_rooted, dot_dot, go_up, base}
use email_proxy.FilePath.Laws.{
  NoSlash, base-NoSlash, elements, absolute, directory, in_directory_of_name,
}
use email_proxy.Services.{Env}
use email_proxy.Smtp.Save.{storage_path}

-- With an absolute attachment path, an attachment of a message, whatever its name, is stored at the
-- path of a file in the directory of its mail, whose name is the attachment's base name, has no
-- slash and is not "..", or at the path of that directory itself or of its parent.
pub storage_path_lem :
    (e : Env) (today mail_id filename : Text)
    → is_rooted e.config.attachment_path ≡ true
    → let held = elements (directory e.config.attachment_path today mail_id) in
      let path = storage_path e today mail_id filename in
      (path ≡ absolute held)
      ⊎ ((path ≡ absolute (go_up true held))
          ⊎ ((path ≡ absolute (base filename ∷ held))
              × NoSlash (base filename)
              × (text_eq (base filename) dot_dot ≡ false)))
unfolding storage_path
storage_path_lem e today mail_id filename h =
    in_directory_of_name e.config.attachment_path today mail_id (base filename) h
      (base-NoSlash filename)
