-- ===== src/Smtp/Laws.antt =====
-- Which senders a session accepts, and what its commands leave alone.
use email_proxy.Prelude.{
  ◌≡◌, refl, ◌∙◌, ◌⊎◌, inl, inr, true, List, [], ◌∷◌, ◌++◌, map, none, some, arith, any, Bool-cases,
  append_assoc, append-nil,
}
use email_proxy.Text.{Text, text, clean_email}
use email_proxy.Router.{in_domain}
use email_proxy.Router.Laws.{IsWithin, in_domain_iff}
use email_proxy.Services.{Env}
use email_proxy.Smtp.{Session, reset, is_allowed, mail, rcpt}

-- Some domain of the list admits the address.
pub data Admits (u : Text → Text) (address : Text) : List Text → Type 0 where
  this : (d : Text) (ds : List Text) → IsWithin u d address → Admits u address (d ∷ ds)
  later : (d : Text) (ds : List Text) → Admits u address ds → Admits u address (d ∷ ds)

any_sound :
    (u : Text → Text) (address : Text) (ds : List Text)
    → any (in_domain u address) ds ≡ true
    → Admits u address ds
any_sound u address [] h = cc
any_sound u address (d ∷ ds) h = elim (Bool-cases (in_domain u address d)) [
  | inl here ↦ this d ds ((in_domain_iff u address d).0 here)
  | inr no_match ↦ later d ds (any_sound u address ds (ground arith))
]

any_complete :
    (u : Text → Text) (address : Text) (ds : List Text)
    → Admits u address ds
    → any (in_domain u address) ds ≡ true
any_complete u address ds (this d rest h) = rw ((in_domain_iff u address d).1 h)
any_complete u address ds (later d rest h) = ground (arith, any_complete u address rest h)

abbrev pub IsAdmitted : Env → Text → Type 0
IsAdmitted e from =
    (e.config.smtp_allowed_domains ≡ [])
    ⊎ Admits e.platform.unicode_lower (clean_email from) e.config.smtp_allowed_domains

is_allowed_sound :
    (e : Env) (ds : List Text) (address : Text)
    → is_allowed e ds address ≡ true
    → (ds ≡ []) ⊎ Admits e.platform.unicode_lower address ds
unfolding is_allowed
is_allowed_sound e [] address h = inl refl
is_allowed_sound e (d ∷ ds) address h = inr (any_sound e.platform.unicode_lower address (d ∷ ds) h)

is_allowed_complete :
    (e : Env) (ds : List Text) (address : Text)
    → (ds ≡ []) ⊎ Admits e.platform.unicode_lower address ds
    → is_allowed e ds address ≡ true
unfolding is_allowed
is_allowed_complete e [] address h = refl
is_allowed_complete e (d ∷ ds) address (inl h) = cc
is_allowed_complete e (d ∷ ds) address (inr h) =
    any_complete e.platform.unicode_lower address (d ∷ ds) h

-- MAIL FROM takes the cleaned address if no domain is listed, or if the address ends, in any case,
-- in a listed one, and keeps the recipients. Any other address is an error that changes nothing.
pub mail_lem :
    (e : Env) (from : Text) (s : Session)
    → (IsAdmitted e from → mail e from s ≡ (record { from = clean_email from; to = s.to }, none))
      × (¬ IsAdmitted e from
          → mail e from s ≡ (s, some (text "sender domain not allowed: " ++ clean_email from)))
unfolding mail
mail_lem e from s =
    let ds = e.config.smtp_allowed_domains in
    (
      λ h. rw (is_allowed_complete e ds (clean_email from) h),
      λ h. elim (Bool-cases (is_allowed e ds (clean_email from))) [
        | inl good ↦ absurd (h (is_allowed_sound e ds (clean_email from) good))
        | inr bad ↦ rw bad
      ],
    )

-- The recipients of a list of RCPT TO commands.
abbrev pub rcpt_all : List Text → Session → Session
rcpt_all [] s = s
rcpt_all (to ∷ tos) s = rcpt_all tos (rcpt to s).0

rcpt_all_lem :
    (tos : List Text) (s : Session) → rcpt_all tos s ≡ record s { to = s.to ++ map clean_email tos }
unfolding rcpt
rcpt_all_lem [] s = ground (arith, append-nil s.to)
rcpt_all_lem (to ∷ tos) s =
    rcpt_all_lem tos (rcpt to s).0
    ∙ ground (arith, append_assoc s.to (clean_email to ∷ []) (map clean_email tos))

-- A message starts from a session that is new or was reset: MAIL FROM by an admitted sender, then
-- any list of RCPT TO. The session then holds the cleaned sender, and the cleaned recipients in
-- their order, whatever the session held before the reset.
pub session_of_commands :
    (e : Env) (from : Text) (tos : List Text) (before : Session)
    → IsAdmitted e from
    → rcpt_all tos (mail e from (reset before)).0
      ≡ record { from = clean_email from; to = map clean_email tos }
unfolding reset
session_of_commands e from tos before h =
    rw ((mail_lem e from (reset before)).0 h) (rcpt_all_lem tos _)
