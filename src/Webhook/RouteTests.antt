-- ===== src/Webhook/RouteTests.antt =====
-- A checkout of the tier `pro` at its fallback price, which is paid.
use ko_finance.Common.{
  Text, codes, text_eq, strip, lstrip, rstrip, lower, normalize, is_space, split_on, field_of,
  truthy, to_int, pos, none, some, true, List, [], ◌≡◌, refl, Response, responds,
}
use ko_finance.JsonStore.{load, store}
use ko_finance.Payments.{
  generate_order_id, extract_tier_from_order_id, has_processed_webhook, load_events,
  resolve_payment_status, resolve_order_id, build_webhook_dedupe_key,
}
use ko_finance.Payments.Contexts.{OrderContext, normalize_optional, get_order_context, new_context}
use ko_finance.Payments.ContextItems
use ko_finance.Payments.Orders.{TossOrderRecord, Checkout, load_orders, pending_order}
use ko_finance.Payments.OrderStatus.{with_status}
use ko_finance.Payments.OrderItems.{Clean}
use ko_finance.PlanConfig.{default_plan_config}
use ko_finance.PlanConfig.Merge.{default-NormalTiers}
use ko_finance.PlanSettings.{normalize_plan_tier}
use ko_finance.PlanSettings.Held.{Holds}
use ko_finance.Webhook.{parse_period_end, Billing, Answer, accepted, verify_toss_webhook_signature}
use ko_finance.Webhook.Handler.{handle_toss_webhook}
use ko_finance.Webhook.Payment.{read_payment, status_metadata}
use ko_finance.Webhook.Routes.{create_toss_checkout, read_toss_order, confirm_toss_payment}
use ko_finance.Webhook.Requests.{
  Caller, TossCheckoutCreateRequest, TossCheckoutCreateResponse, resolve_plan_amount,
  requested_order,
}
use ko_finance.Webhook.Paid.{Settled}
use ko_finance.Webhook.Settling.{writing}
use ko_finance.Webhook.Journey.{Answers, create_toss_checkout-read, paid_checkout-Settled}
use ko_finance.Webhook.Tests.{
  letters, shop, free_settings, empty_store, opened, request, payment, request-Delivers,
  letters-Reads, free-Storable,
}

abbrev pub no_query : List (Text × Text) → Text
no_query params = []

abbrev pub wanted : TossCheckoutCreateRequest
wanted = record {
  plan_tier = codes "pro";
  amount = none;
  currency = some (codes "krw");
  order_name = none;
  redirect_path = some (codes " /billing");
  customer_name = none;
  customer_email = none;
}

abbrev pub user_caller : Caller
user_caller = record { user = some (codes "u1"); rbac_user = none; org = some (codes "o1") }

abbrev pub billing : Billing
billing = record opened { books = record opened.books { orders = empty_store } }

unfoldable pub flows : Unit {0}
unfolding load store resolve_payment_status resolve_order_id extract_tier_from_order_id
    generate_order_id build_webhook_dedupe_key has_processed_webhook load_events load_orders
    normalize_optional normalize_plan_tier verify_toss_webhook_signature read_payment
    parse_period_end split_on field_of truthy to_int text_eq strip lstrip rstrip is_space lower
    normalize resolve_plan_amount create_toss_checkout read_toss_order confirm_toss_payment
flows = tt

abbrev pub order : Checkout
order = requested_order (codes "1") (codes "u1") (some (codes "o1")) wanted (pos 39000)

abbrev pub placed : TossOrderRecord
placed = pending_order (codes "t1") order

pub placed-Clean : Clean placed
unfolding flows
placed-Clean = (
  (refl, refl),
  (refl, refl),
  (refl, refl),
  (refl, refl),
  (refl, refl),
  refl,
  refl,
  (refl, refl),
  (refl, refl),
)

paid-Clean : Clean (with_status (codes "t2") (codes "paid") (some (status_metadata payment)) placed)
unfolding flows
paid-Clean = (
  (refl, refl),
  (refl, refl),
  (refl, refl),
  (refl, refl),
  (refl, refl),
  refl,
  refl,
  (refl, refl),
  (refl, refl),
)

abbrev context : OrderContext
context =
    new_context (codes "t1") order.order_id (some (codes "o1")) (some (codes "pro"))
      (some (codes "u1"))

context-Clean : ContextItems.Clean context
unfolding flows
context-Clean = (refl, refl, refl, refl, refl, refl, refl)

abbrev pub created : Response TossCheckoutCreateResponse × Billing
created =
    create_toss_checkout shop no_query (writing 10 (codes "t1") true) (codes "1") [] user_caller
      wanted billing

create_toss_checkout-read_example :
    Answers shop no_query 10
      (codes "t1")
      true
      (codes "1")
      (codes "u1")
      (some (codes "o1"))
      wanted
      (pos 39000)
      created.0
    × ((read_toss_order shop no_query
          (writing 11 (codes "t9") true)
          user_caller
          order.order_id
          created.1).0
        ≡ responds (record {
          order_id = codes "kfinance-pro-1";
          plan_tier = codes "pro";
          amount = pos 39000;
          currency = codes "KRW";
          order_name = order.order_name;
          status = codes "pending";
          user_id = some (codes "u1");
          org_id = some (codes "o1");
          created_at = codes "t1";
          updated_at = codes "t1";
          metadata = order.metadata;
        }))
    × ((get_order_context letters.show order.order_id created.1.contexts).0
        ≡ some (record {
          order_id = codes "kfinance-pro-1";
          org_id = some (codes "o1");
          plan_slug = some (codes "pro");
          user_id = some (codes "u1");
          created_at = codes "t1";
        }))
    × (extract_tier_from_order_id (some order.order_id) ≡ some (codes "pro"))
unfolding flows
create_toss_checkout-read_example =
    create_toss_checkout-read shop no_query 10 (codes "t1") true (codes "1") (codes "u1")
      (some (codes "o1")) wanted (pos 39000) none [] [] (writing 11 (codes "t9") true) user_caller
      (codes "u1") billing refl refl refl refl placed-Clean context-Clean refl refl

pub billing-Holds : Holds free_settings billing.books.plan
billing-Holds = (refl, (default_plan_config, refl, default-NormalTiers, tt))

abbrev handled : Answer × Billing
handled = handle_toss_webhook shop (writing 20 (codes "t2") true) request created.1

paid_checkout-Settled_example :
    (handled.0 ≡ accepted)
    × Settled shop 20
        (codes "t2")
        true
        payment
        (codes "pro")
        free_settings
        (codes "t1")
        (codes "t3")
        order
        handled.1.books
        billing.books.plan
unfolding flows
paid_checkout-Settled_example =
    paid_checkout-Settled shop no_query 10 (codes "t1") true (codes "1") (codes "u1")
      (some (codes "o1")) wanted (pos 39000) letters-Reads none [] [] request payment 20
      (codes "t2") (codes "t3") free_settings none billing refl refl refl refl placed-Clean
      request-Delivers refl refl refl refl refl free-Storable billing-Holds paid-Clean

-- The buyer names the price: an amount of 1 in the request is the amount of the order.
named_price : resolve_plan_amount (codes "enterprise") (some 1) [] ≡ some (some (pos 1))
unfolding flows
named_price = refl
