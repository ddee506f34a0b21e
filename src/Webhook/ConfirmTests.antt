-- ===== src/Webhook/ConfirmTests.antt =====
-- A confirmation of the checkout of the route tests, and a replay of its payment.
use ko_finance.Common.{
  Text, codes, pos, none, some, true, List, [], ◌≡◌, refl, Response, responds, Fields, string,
  object, field, end, ◌∷◌,
}
use ko_finance.Payments.Contexts.{OrderContext}
use ko_finance.Payments.ContextItems
use ko_finance.Payments.Orders.{record_checkout}
use ko_finance.Payments.OrderItems.{Clean}
use ko_finance.Webhook.{Billing}
use ko_finance.Webhook.Routes.{confirm_toss_payment}
use ko_finance.Webhook.Requests.{
  TossPaymentsConfirmRequest, TossPaymentsConfirmResponse, confirmed, Caller,
}
use ko_finance.Webhook.Settling.{writing}
use ko_finance.PlanSettings.{PersistedPlanSettings}
use ko_finance.PlanSettings.Exec.{returned}
use ko_finance.PlanSettings.Disk.{base_entitlements_for_tier}
use ko_finance.PlanSettings.Checkout.{Upgraded}
use ko_finance.Webhook.Payment.{payment_event}
use ko_finance.Webhook.Replay.{
  TossWebhookEventLog, Replay, Replayed, upgraded, replay_toss_webhook_event,
}
use ko_finance.Webhook.Confirmed.{
  confirmed_checkout-read, confirmed_order, confirmed_context, ReadsConfirmed,
}
use ko_finance.Webhook.Replayed.{PaidEvent, replay_toss_webhook_event-Upgraded}
use ko_finance.Webhook.Tests.{letters, shop, free_settings, payment, letters-Reads, free-Storable}
use ko_finance.Webhook.RouteTests.{
  billing, billing-Holds, created, flows, no_query, order, placed, placed-Clean, user_caller,
  wanted,
}

-- The payment is confirmed without the headers of the buyer, and with an amount of 1.
abbrev nobody : Caller
nobody = record { user = none; rbac_user = none; org = none }

abbrev confirmation : TossPaymentsConfirmRequest
confirmation = record {
  payment_key = codes "k1";
  order_id = order.order_id;
  amount = 1;
  plan_tier = none;
}

abbrev provider_answer : Fields
provider_answer = field (codes "approvedAt") (string (codes "t2")) end

confirmed-Clean : Clean (confirmed_order (codes "t2") confirmation placed)
unfolding flows
confirmed-Clean = (
  (refl, refl),
  (refl, refl),
  (refl, refl),
  (refl, refl),
  (refl, refl),
  refl,
  refl,
  (refl, refl),
  (refl, refl),
)

abbrev left_context : OrderContext
left_context = confirmed_context (codes "t2") nobody confirmation (codes "pro")

left_context-Clean : ContextItems.Clean left_context
unfolding flows
left_context-Clean = (refl, refl, refl, refl, refl, refl, refl)

abbrev confirmed_answer : Response TossPaymentsConfirmResponse × Billing
confirmed_answer =
    confirm_toss_payment shop no_query (writing 20 (codes "t2") true) nobody confirmation
      (confirmed provider_answer) created.1

confirmed_checkout-read_example :
    (confirmed_answer.0
      ≡ responds (record {
        payment_key = codes "k1";
        order_id = order.order_id;
        approved_at = some (codes "t2");
        raw = provider_answer;
      }))
    × ReadsConfirmed shop no_query
        (codes "t2")
        (writing 21 (codes "t9") true)
        user_caller
        confirmation
        placed
        left_context
        confirmed_answer.1
unfolding flows
confirmed_checkout-read_example =
    confirmed_checkout-read shop no_query 10 (codes "t1") true (codes "1") (codes "u1")
      (some (codes "o1")) wanted (pos 39000) none [] [] nobody confirmation provider_answer 20
      (codes "t2") (writing 21 (codes "t9") true) user_caller (codes "u1") billing refl refl refl
      refl placed-Clean refl confirmed-Clean left_context-Clean refl refl

abbrev logged : TossWebhookEventLog
logged = record {
  transmission_id = some (codes "id-1");
  status = none;
  payload = some (
      field (codes "eventType") (string payment_event)
        (field (codes "data") (object payment.body) end));
  context_event_type = none;
  context_status = none;
  context_order_id = none;
  created_at = 15;
}

abbrev paid_event : Replay
paid_event = record {
  event_type = some payment_event;
  status = codes "DONE";
  order_id = some (codes "kfinance-pro-1");
}

logged-PaidEvent : PaidEvent (codes "id-1") (logged ∷ []) (codes "pro") paid_event
unfolding flows
logged-PaidEvent = (
  refl,
  (
    logged,
    codes "eventType",
    string payment_event,
    field (codes "data") (object payment.body) end,
    refl,
    refl,
    refl,
  ),
  refl,
  refl,
  refl,
)

abbrev replayed : Replayed × Billing
replayed =
    replay_toss_webhook_event shop (writing 30 (codes "t3") true) (codes "id-1") (logged ∷ [])
      created.1

replay_toss_webhook_event-Upgraded_example :
    (base : List Text) × (new : PersistedPlanSettings) × (replayed.0
      ≡ upgraded (codes "DONE") (some (codes "kfinance-pro-1")) (codes "pro"))
    × ((base_entitlements_for_tier letters (codes "pro") created.1.books.plan).0 ≡ returned base)
    × (replayed.1.books.plan.cache ≡ some new)
    × Upgraded (codes "pro") base free_settings new
    × (replayed.1.books.orders ≡ created.1.books.orders)
    × (replayed.1.books.service ≡ created.1.books.service)
    × (replayed.1.contexts ≡ created.1.contexts)
unfolding flows record_checkout
replay_toss_webhook_event-Upgraded_example =
    replay_toss_webhook_event-Upgraded shop 30 (codes "t3") true (codes "id-1") letters-Reads
      (logged ∷ []) (codes "pro") paid_event free_settings created.1 logged-PaidEvent refl
      free-Storable billing-Holds
