-- ===== src/Worker/Views.antt =====
-- What a step of the worker does to the row and to the cached status of each mail.
use mathlib.Core.Option
use email_proxy.Prelude.{ℕ, ◌≡◌, refl, ◌∙◌, ◌≢◌, false, Option, some, arith, if_same}
use email_proxy.Text.{Text, text_eq}
use email_proxy.Text.Laws.{text_eq_iff, text_eq_refl}
use email_proxy.Models.{Mail, MailUpdate, apply_update}
use email_proxy.Services.{Env, World, IsReliable}
use email_proxy.Keydb.{status_key, new_status, set_status}
use email_proxy.Worker.{Moment, update_row, note_status}

-- Keys of different mails are different keys.
pub text_eq-status_key : (a b : Text) → text_eq (status_key a) (status_key b) ≡ text_eq a b
unfolding text_eq status_key
text_eq-status_key a b = refl

module _ (e : Env) where
  abbrev pub row_of : Text → World e.services → Option Mail
  row_of id w = e.services.row id w.db

  -- The text that is cached about a mail.
  abbrev pub cached_of : Text → World e.services → Option Text
  cached_of id w = e.services.value (status_key id) w.cache

  -- What SetStatus stores.
  abbrev pub status_json : Moment → Text → Text → ℕ → Text → Text
  status_json now id status n error =
      e.platform.marshal_status (new_status now.formatted id status n error)

  -- Nothing that is stored about mail `i` differs.
  pub record SameFor (i : Text) (v w : World e.services) : Type 0 where
    pub same_row : row_of i w ≡ row_of i v
    pub same_cached : cached_of i w ≡ cached_of i v

  pub SameFor-trans :
      {i : Text} {u v w : World e.services} → SameFor i u v → SameFor i v w → SameFor i u w
  SameFor-trans h k = record {
    same_row = k.same_row ∙ h.same_row;
    same_cached = k.same_cached ∙ h.same_cached;
  }

  pub update_row-SameFor :
      (id : Text) (c : MailUpdate) (w : World e.services) (i : Text)
      → i ≢ id
      → SameFor i w (update_row e id c w)
  unfolding update_row
  update_row-SameFor id c w i h =
      ground (arith, e.services.row-update id c w.db i, text_eq_iff id i)

  pub note_status-SameFor :
      (now : Moment) (id status : Text) (n : ℕ) (error : Text) (w : World e.services) (i : Text)
      → i ≢ id
      → SameFor i w (note_status e now id status n error w)
  unfolding note_status set_status
  note_status-SameFor now id status n error w i h =
      let other : text_eq (status_key id) (status_key i) ≡ false =
        ground (arith, text_eq-status_key id i, text_eq_iff id i) in
      record { same_row = refl; same_cached = rw (e.services.value-set, other) (if_same _ _) }

  pub row_of-note_status :
      (now : Moment) (id status : Text) (n : ℕ) (error : Text) (w : World e.services) (i : Text)
      → row_of i (note_status e now id status n error w) ≡ row_of i w
  unfolding note_status set_status
  row_of-note_status now id status n error w i = refl

  pub cached_of-update_row :
      (id : Text) (c : MailUpdate) (w : World e.services) (i : Text)
      → cached_of i (update_row e id c w) ≡ cached_of i w
  unfolding update_row
  cached_of-update_row id c w i = refl

  module _ (r : IsReliable e.services) where
    pub row_of-update_row :
        (id : Text) (c : MailUpdate) (w : World e.services)
        → row_of id (update_row e id c w) ≡ Option.map (apply_update c) (row_of id w)
    unfolding update_row
    row_of-update_row id c w = rw (e.services.row-update, r.updates id c w.db, text_eq_refl id)

    pub cached_of-note_status :
        (now : Moment) (id status : Text) (n : ℕ) (error : Text) (w : World e.services)
        → cached_of id (note_status e now id status n error w)
          ≡ some (status_json now id status n error)
    unfolding note_status set_status
    cached_of-note_status now id status n error w = rw (
      e.services.value-set,
      r.caches (status_key id) (status_json now id status n error) e.config.keydb_status_ttl
          w.cache,
      text_eq_refl (status_key id),
    )
