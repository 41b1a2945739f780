-- ===== src/Api/Status/Bounds.antt =====
-- What GetHistory asks the database for.
use email_proxy.Prelude.{ℕ, List}
use email_proxy.Text.{Text}
use email_proxy.Models.{Mail}
use email_proxy.Services.{Env, World}
use email_proxy.Api.Status.{status_filter}

-- What GetHistory asks the database for, behind an offset.
abbrev pub page_of : (e : Env) → Text → Text → World e.services → ℕ → ℕ → List Mail
page_of e client_id status w offset most =
    e.services.mails_of client_id (status_filter status) offset most w.db
