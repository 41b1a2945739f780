-- ===== src/Tests/SmtpRuns.antt =====
-- SMTP sessions and messages on concrete values.
use email_proxy.Prelude.{
  ℕ, zero, suc, ◌+◌, ◌<◌, ◌≡◌, refl, ◌≢◌, inr, [], ◌∷◌, ◌++◌, none, some, arith, Option, List, true,
  false, ◌⊎◌,
}
use email_proxy.Text.{Text, text, clean_email, to_lower, text_eq}
use email_proxy.Smtp.{Session, mail}
use email_proxy.Smtp.Laws.{this, IsAdmitted, mail_lem, rcpt_all}
use email_proxy.Smtp.Mime.{NextPart, eof, inline, other, Collected, MimeReader, read_parts}
use email_proxy.Prelude.Results.{Result, ok}
use email_proxy.FilePath.{base, dot_dot, go_up, is_rooted}
use email_proxy.FilePath.Laws.{NoSlash, absolute, elements, directory}
use email_proxy.Smtp.Save.{storage_path, save_all}
use email_proxy.Smtp.Paths.{storage_path_lem}
use mathlib.Core.Path.{subst, ap, ◌∙◌}
use email_proxy.Services.{World}
use email_proxy.Smtp.Receive.{
  Now, exceeds_limit, max_size_bytes, data_command, parse_mail_data, store_and_enqueue, enqueue,
}
use email_proxy.Smtp.Server.{backend_new_session}
use email_proxy.Smtp.Transactions.{IsStored, transaction_accepted}
use email_proxy.Queue.{publish, publish_mail}
use email_proxy.Keydb.{set_status}
use email_proxy.Smtp.Intake.{Ends, IsReceived, data_command_lem}
use email_proxy.Tests.Fixture.{env, services, no_mails}

abbrev bob : Text
bob = text "<Bob@ptc-nec.com.tw>"

abbrev session : Session
session = record { from = text "old@x.y"; to = text "old@z.w" ∷ [] }

mail_lem_example :
    (IsAdmitted env bob
      → mail env bob session ≡ (record { from = clean_email bob; to = session.to }, none))
    × (¬ IsAdmitted env bob
        → mail env bob session
          ≡ (session, some (text "sender domain not allowed: " ++ clean_email bob)))
mail_lem_example = mail_lem env bob session

bob-IsAdmitted : IsAdmitted env bob
unfolding clean_email to_lower
bob-IsAdmitted = inr (this (text "@PTC-nec.com.tw") [] (text "bob", refl))

abbrev two_parts : ℕ → NextPart
two_parts zero = inline (text "text/plain") (text "hello")
two_parts (suc zero) = other
two_parts (suc (suc n)) = eof

abbrev nothing : Collected
nothing = record { body_text = []; body_html = []; attachments = [] }

abbrev fresh : ℕ → Text
fresh n = n ∷ []

two_parts_open : (i : ℕ) → i < 2 → two_parts (0 + i) ≢ eof
two_parts_open zero h e = cc
two_parts_open (suc zero) h e = cc
two_parts_open (suc (suc i)) h e = omega arith

abbrev reader : MimeReader
reader = record { subject = text "hi"; address_list = λ field. ok []; next_part = two_parts }

abbrev create_reader : Text → Result MimeReader
create_reader raw = ok reader

reader-Ends : (r : MimeReader) → create_reader (text "raw") ≡ ok r → Ends 3 r
reader-Ends r h =
    let same : reader ≡ r = ground arith in
    subst (Ends 3) same (record {
      calls = 2;
      last = refl;
      before = λ i h closed. two_parts_open i h (ap two_parts (omega arith) ∙ closed);
      enough = omega arith;
    })

abbrev received_now : Now
received_now = record { today = text "2025/01/02"; stamp = text "12:00"; unix = 7; fresh = fresh }

data_command_lem_example :
    (w' : World services) × (error : Option Text) × (data_command env received_now 3 create_reader
        session
        (ok (text "raw"))
        no_mails
      ≡ some (w', error))
    × (error ≡ none → IsReceived env received_now 3 create_reader session (text "raw") no_mails w')
data_command_lem_example =
    data_command_lem env received_now 3 create_reader session (text "raw") no_mails reader-Ends

abbrev evil : Text
evil = text "../../etc/passwd"

abbrev held : List Text
held = elements (directory env.config.attachment_path (text "2025/01/02") (text "a1"))

storage_path_lem_example :
    let path = storage_path env (text "2025/01/02") (text "a1") evil in
    (path ≡ absolute held)
    ⊎ ((path ≡ absolute (go_up true held))
        ⊎ ((path ≡ absolute (base evil ∷ held))
            × NoSlash (base evil)
            × (text_eq (base evil) dot_dot ≡ false)))
unfolding is_rooted
storage_path_lem_example = storage_path_lem env (text "2025/01/02") (text "a1") evil refl

abbrev bob_session : Session
bob_session = rcpt_all (text "<x@y.z>" ∷ []) (mail env bob (backend_new_session (text "h"))).0

abbrev world_after : Option (World services × Option Text) → World services
world_after none = no_mails
world_after (some (w, _)) = w

abbrev received_world : World services
received_world =
    world_after
      (data_command env received_now 3 create_reader bob_session (ok (text "raw")) no_mails)

received :
    data_command env received_now 3 create_reader bob_session (ok (text "raw")) no_mails
    ≡ some (received_world, none)
unfolding data_command exceeds_limit max_size_bytes parse_mail_data read_parts save_all
    store_and_enqueue enqueue publish_mail publish set_status
received = refl

bob_named : clean_email bob ≢ []
unfolding clean_email
bob_named h = cc

transaction_accepted_example :
    IsStored env
      (record { from = clean_email bob; to = clean_email (text "<x@y.z>") ∷ [] })
      no_mails
      received_world
transaction_accepted_example =
    transaction_accepted env received_now 3 create_reader (text "h") bob (text "<x@y.z>") []
      (text "raw") no_mails received_world bob-IsAdmitted bob_named reader-Ends received
