-- ===== src/Smtp/Mime.antt =====
-- internal/smtp/session.go `parseMailData`: from the parts of a MIME message to a mail. The library
-- that reads the message is a parameter: the header fields, and what each call of NextPart returns.
use email_proxy.Prelude.{
  ℕ, zero, suc, List, [], ◌∷◌, ◌++◌, Option, none, some, length, if◌then◌else◌,
}
use email_proxy.Prelude.Results.{Result, ok, err}
use email_proxy.Text.{Text, text, has_prefix, split, trim_space, trim_prefix, trim_byte, decimal}
use email_proxy.Models.{Attachment}

-- A part with an AttachmentHeader. `params` is `none` where the library returned nil, and then
-- holds the parameter `name`; `body` is what io.ReadAll returned.
pub record AttachmentPart : Type 0 where
  pub filename : Text
  pub content_type : Text
  pub params : Option (Option Text)
  pub content_disposition : Text
  pub x_attachment_name : Text
  pub body : Result Text

-- What a call of NextPart returns.
pub data NextPart : Type 0 where
  eof : NextPart
  broken : NextPart
  inline : (content_type content : Text) → NextPart
  attached : AttachmentPart → NextPart
  other : NextPart

pub record MimeReader : Type 0 where
  pub subject : Text
  pub address_list : Text → Result (List Text)
  -- the n-th call of NextPart
  pub next_part : ℕ → NextPart

-- What the loop over the parts collects. The data of an attachment stands beside it: the two
-- slices of the source are appended to together.
pub record Collected : Type 0 where
  pub body_text : Text
  pub body_html : Text
  pub attachments : List (Attachment × Text)

-- The parameter `filename` among the parts of a Content-Disposition.
unfoldable pub find_filename : List Text → Text
find_filename [] = []
find_filename (part ∷ parts) =
    let trimmed = trim_space part in
    if has_prefix trimmed (text "filename=")
    then trim_byte b'"' (trim_prefix trimmed (text "filename="))
    else find_filename parts

-- The second element, if there are exactly two.
abbrev second_of_two : List Text → Option Text
second_of_two [] = none
second_of_two (_ ∷ []) = none
second_of_two (_ ∷ b ∷ []) = some b
second_of_two (_ ∷ _ ∷ _ ∷ _) = none

abbrev image_extension : Option Text → Text
image_extension none = text ".bin"
image_extension (some kind) = text "." ++ kind

unfoldable pub extension : Text → Text
extension content_type =
    if has_prefix content_type (text "image/")
    then image_extension (second_of_two (split b'/' content_type))
    else if has_prefix content_type (text "application/pdf")
    then text ".pdf"
    else if has_prefix content_type (text "text/")
    then text ".txt"
    else text ".bin"

-- The later text, if the earlier one is empty.
abbrev pub or_text : Text → Text → Text
or_text [] later = later
or_text (c ∷ s) later = c ∷ s

abbrev name_param : Option (Option Text) → Text
name_param none = []
name_param (some none) = []
name_param (some (some name)) = name

-- The name of an attachment: the library's, or that of the Content-Disposition, or that of the
-- Content-Type, or that of X-Attachment-Name, or one made from the time; `now` is in seconds.
unfoldable pub attachment_name : ℕ → AttachmentPart → Text
unfolding find_filename extension
attachment_name now p =
    or_text
      (or_text
        (or_text (or_text p.filename (find_filename (split b';' p.content_disposition)))
          (name_param p.params))
        p.x_attachment_name)
      (text "attachment_" ++ decimal now ++ extension p.content_type)

-- A text part replaces the body of its kind.
unfoldable pub take_inline : Text → Text → Collected → Collected
take_inline content_type content c =
    if has_prefix content_type (text "text/plain")
    then record c { body_text = content }
    else if has_prefix content_type (text "text/html")
    then record c { body_html = content }
    else c

-- An attachment whose data cannot be read is left out. `fresh` gives the new UUIDs; the id of the
-- mail and the storage path are set later.
unfoldable pub take_attachment : ℕ → (ℕ → Text) → AttachmentPart → Collected → Collected
take_attachment now fresh p c = elim p.body [
  | err _ ↦ c
  | ok content ↦ record c {
    attachments =
        c.attachments
        ++ (
          record {
            id = fresh (length c.attachments);
            mail_id = [];
            filename = attachment_name now p;
            content_type = p.content_type;
            size_bytes = length content;
            storage_path = [];
          },
          content,
        )
          ∷ [];
  }
]

module _ (now : ℕ) (fresh : ℕ → Text) (next_part : ℕ → NextPart) where
  -- The loop, from its n-th call of NextPart on. `none`: it still runs when the fuel is used up.
  unfoldable pub read_parts : ℕ → ℕ → Collected → Option Collected
  read_parts zero n c = none
  read_parts (suc fuel) n c = elim (next_part n) [
    | eof ↦ some c
    | broken ↦ read_parts fuel (suc n) c
    | inline content_type content ↦ read_parts fuel (suc n) (take_inline content_type content c)
    | attached p ↦ read_parts fuel (suc n) (take_attachment now fresh p c)
    | other ↦ read_parts fuel (suc n) c
  ]
