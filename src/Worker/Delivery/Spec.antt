-- ===== src/Worker/Delivery/Spec.antt =====
-- What the worker promises about the row of one mail: a specification without messages, JSON, status
-- cache and queues.
use email_proxy.Prelude.{ℕ, zero, suc, ◌+◌, Option, none, some, leb, if◌then◌else◌}
use email_proxy.Models.{Mail, processing, sent, failed}
use email_proxy.Router.{Outcome, accepted, refused, panicked}

-- The row after the attempts from the `k`-th on, of which `n` have counted, if their outcomes are
-- `outcome k`, `outcome (k + 1)` and so on, and they end at the times `instant`.
module _ (limit : ℕ) (outcome : ℕ → Outcome) (instant : ℕ → ℕ) where
  unfoldable pub delivered : ℕ → ℕ → ℕ → Mail → Option Mail
  delivered zero k n mail = none
  delivered (suc fuel) k n mail = elim (outcome k) [
    | accepted ↦ some (record mail { status = sent; sent_at = some (instant k) })
    | panicked ↦ some (record mail { status = processing })
    | refused cause ↦
        let again =
          delivered fuel (k + 1) (n + 1)
            (record mail { status = processing; retry_count = n + 1 }) in
        if leb limit (n + 1)
        then some (record mail { status = failed; retry_count = n + 1; error_message = cause })
        else again
  ]
