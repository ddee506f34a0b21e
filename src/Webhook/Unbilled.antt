-- ===== src/Webhook/Unbilled.antt =====
-- What webhooks leave of the entitlement service.
use ko_finance.Common.{List, [], ◌∷◌, ◌≡◌}
use ko_finance.Entitlement.{Service}
use ko_finance.Webhook.{Outside, Request, Moment, Billing}
use ko_finance.Webhook.Payment.{Payment, Effect}
use ko_finance.Webhook.Handler.{handle_toss_webhook}

-- A step on the books that leaves the service `x`.
abbrev Leaves : Service → Effect → Type 0
Leaves x e = e.1.service ≡ x

-- Any requests, each at its moment.
abbrev pub webhooks : Outside → List (Moment × Request) → Billing → Billing
webhooks o [] s = s
webhooks o ((at, r) ∷ rs) s = webhooks o rs (handle_toss_webhook o at r s).1
