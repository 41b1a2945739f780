-- ===== src/Keydb/Laws.antt =====
-- What GetStatus reads after SetStatus.
use email_proxy.Prelude.{ℕ, ◌≡◌, some}
use email_proxy.Prelude.Results.{ok}
use email_proxy.Text.{Text}
use email_proxy.Text.Laws.{text_eq_refl}
use email_proxy.Services.{Env, World, IsReliable}
use email_proxy.Keydb.{status_key, new_status, read_status, set_status, get_status}

-- A status that was stored is read back, for every mail, status, retry count and error, if the
-- JSON of this entry is read back and KeyDB does not fail.
pub get_status-set_status :
    (e : Env) (now mail_id status : Text) (n : ℕ) (error : Text) (w : World e.services)
    → IsReliable e.services
    → e.platform.unmarshal_status
        (e.platform.marshal_status (new_status now mail_id status n error))
      ≡ ok (new_status now mail_id status n error)
    → get_status e mail_id (set_status e now mail_id status n error w).0
      ≡ ok (new_status now mail_id status n error)
unfolding set_status get_status read_status
get_status-set_status e now mail_id status n error w r json =
    let key = status_key mail_id in
    let entry = e.platform.marshal_status (new_status now mail_id status n error) in
    let kept : e.services.value key
          (e.services.redis_set key entry e.config.keydb_status_ttl w.cache).0
        ≡ some entry =
      rw (
        e.services.value-set,
        r.caches key entry e.config.keydb_status_ttl w.cache,
        text_eq_refl key,
      ) in
    rw (r.gets key _ entry kept, get_status) (rw (json, read_status))
