-- ===== src/Api/Status.antt =====
-- internal/api/handlers/health_handler.go, and GetHistory of internal/api/handlers/mail_handler.go.
pub mod Bounds
use email_proxy.Prelude.{
  ℕ, ◌+◌, ◌*◌, ◌-◌, ◌%◌, ◌^◌, Bool, not, ◌&&◌, ◌||◌, [], ◌∷◌, Option, none, some, ltb,
  if◌then◌else◌,
}
use email_proxy.Text.{Text}
use email_proxy.Services.{Env, World}
use email_proxy.Api.{Response, history, health}

-- A limit above 100, as an int64, is cut to 100.
unfoldable pub capped : ℕ → ℕ
capped limit = if ltb 100 limit && ltb limit (2 ^ 63) then 100 else limit

-- `(page - 1) * limit` in int64.
unfoldable pub offset_of : ℕ → ℕ → ℕ
offset_of page limit = (page + (2 ^ 64 - 1)) % 2 ^ 64 * limit % 2 ^ 64

unfoldable pub status_filter : Text → Option Text
status_filter [] = none
status_filter (c ∷ s) = some (c ∷ s)

module _ (e : Env) where
  -- `GetHistory`, for the client id that JWTAuth has stored. The page and the limit are what
  -- strconv.Atoi returns for the parameters of the query or their defaults, whose errors are ignored.
  unfoldable pub get_history : Text → ℕ → ℕ → Text → World e.services → Response
  get_history client_id page limit status w =
      let wanted = status_filter status in
      let most = capped limit in
      history (e.services.count_mails client_id wanted w.db) page most
        (e.services.mails_of client_id wanted (offset_of page most) most w.db)

  -- `Ping`
  unfoldable pub ping : World e.services → Bool
  ping w = e.services.ping_cache w.cache

  -- `Health`; `has_keydb` is whether the handler has a service for the cache.
  unfoldable pub get_health : Bool → World e.services → Response
  get_health has_keydb w =
      let database = e.services.ping_db w.db in
      let keydb = not has_keydb || ping w in
      let healthy = database && keydb in
      health (if healthy then 200 else 503) healthy database keydb
