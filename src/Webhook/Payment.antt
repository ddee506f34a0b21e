-- ===== src/Webhook/Payment.antt =====
-- A payment event as `handle_toss_webhook` of web/routers/payments.py reads it, and what an effect is.
use ko_finance.Common.{
  ℕ, Text, codes, text_eq, member, Json, string, object, Fields, end, field, field_of, ℤ, Option,
  none, some, or_default, is_some, Bool, true, false, List, [], ◌∷◌, if◌then◌else◌,
}
use ko_finance.PlanTiers.{plan_tiers}
use ko_finance.JsonStore.{JsonStateStore, optional}
use ko_finance.Payments.{
  data_of, resolve_payment_status, resolve_order_id, build_webhook_dedupe_key,
}
use ko_finance.Payments.Contexts.{OrderContext}
use ko_finance.Payments.Orders.{TossOrderRecord}
use ko_finance.Payments.OrderStatus.{OrderDefaults, set_field}
use ko_finance.PlanSettings.Exec.{Outcome, returned, raised, PlanState}
use ko_finance.PlanSettings.Context.{PlanContext}
use ko_finance.Webhook.{
  Request, Books, either_of, amount_in, metadata_in, default_order_name, amount_or,
}

abbrev pub payment_event : Text
payment_event = codes "PAYMENT_STATUS_CHANGED"

-- What the handler has read of an event.
pub record Payment : Type 0 where
  pub body : Fields
  pub status : Option Text
  pub order_id : Option Text
  pub key : Option Text
  pub amount : Option ℤ

-- The tier of a payment, and what its order context says.
pub record Known : Type 0 where
  pub tier : Option Text
  pub org : Option ℕ
  pub context : Option OrderContext

abbrev pub id_of : Payment → Text
id_of p = or_default p.order_id []

abbrev pub supported : Option Text → Option Text
supported none = none
supported (some t) = if member t plan_tiers then some t else none

abbrev pub slug_in : Option OrderContext → Option Text
slug_in none = none
slug_in (some c) = supported c.plan_slug

abbrev pub org_in : Option OrderContext → Option Text
org_in none = none
org_in (some c) = c.org_id

-- The answer of a step on the books: whether it raised.
abbrev pub Effect : Type 0
Effect = Bool × Books

abbrev pub then_on : Effect → (Books → Effect) → Effect
then_on (true, b) f = f b
then_on (false, b) f = (false, b)

abbrev pub plan_result : Books → Outcome PlanContext × PlanState → Effect
plan_result b (returned c, s) = (true, record b { plan = s })
plan_result b (raised e, s) = (false, record b { plan = s })

abbrev pub order_result : Books → Option (Option TossOrderRecord) × JsonStateStore → Effect
order_result b (none, s) = (false, record b { orders = s })
order_result b (some r, s) = (true, record b { orders = s })

abbrev pub status_metadata : Payment → Fields
status_metadata p =
    field (codes "status") (optional p.status)
      (field (codes "eventType") (string payment_event) end)

abbrev pub order_defaults : Payment → Text → OrderDefaults
order_defaults p tier = record {
  plan_tier = some tier;
  amount = some (amount_or p.amount tier);
  currency = some (codes "KRW");
  order_name = some (default_order_name tier);
  user_id = none;
  org_id = none;
  metadata = none;
}

-- The metadata of the subscription; `fallback` is set unless the event names one.
abbrev pub payload_metadata : Payment → Option Fields → Fields
payload_metadata p fallback =
    let base = set_field (codes "orderId") (optional p.order_id) (metadata_in p.body) in
    elim fallback [
      | none ↦ base
      | some fs ↦
          if is_some (field_of (codes "fallback") base)
          then base
          else set_field (codes "fallback") (object fs) base
    ]

abbrev pub context_metadata : Option OrderContext → Option Fields
context_metadata none = none
context_metadata (some c) = some (
    field (codes "orgId") (optional c.org_id) (
      field (codes "planSlug") (optional c.plan_slug) (
        field (codes "userId") (optional c.user_id)
          (field (codes "source") (string (codes "order_context_store")) end))))

abbrev pub tier_or_free : Known → Text
tier_or_free k = or_default k.tier (codes "free")

abbrev pub canceled_statuses : List Text
canceled_statuses = codes "CANCELED" ∷ codes "ABORTED" ∷ codes "EXPIRED" ∷ []

-- What is read of an event; `none` is an AttributeError.
unfoldable pub read_payment : Request → Fields → Option Payment
read_payment r event = elim (data_of event) [
  | none ↦ none
  | some body ↦
      let status = or_default (resolve_payment_status event) none in
      let order_id = or_default (resolve_order_id event) none in
      some (record {
        body = body;
        status = status;
        order_id = order_id;
        key = build_webhook_dedupe_key r.transmission_id order_id status;
        amount = amount_in (either_of (codes "totalAmount") (codes "amount") body);
      })
]

abbrev pub is_text : Option Json → Text → Bool
is_text (some (string s)) t = text_eq s t
is_text v t = false
