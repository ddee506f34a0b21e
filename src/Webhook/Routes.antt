-- ===== src/Webhook/Routes.antt =====
-- The checkout routes of web/routers/payments.py: create_toss_checkout, read_toss_order and
-- confirm_toss_payment. An exception that nobody catches is answered with 500.
use ko_finance.Webhook.Requests.{
  Caller, TossCheckoutCreateRequest, TossCheckoutCreateResponse, TossPaymentsConfirmRequest,
  TossPaymentsConfirmResponse, TossReply, config_missing, confirm_response, confirmed,
  requested_order, resolve_plan_amount, sanitize_redirect_path, toss_error, unreachable,
}
use ko_finance.Common.{
  ℤ, pos, Text, codes, text_eq, nonempty, member, number, string, Fields, end, field, Option, none,
  some, or_else, Bool, List, [], ◌∷◌, ◌++◌, Response, responds, http_error, if◌then◌else◌,
}
use ko_finance.PlanTiers.{plan_tiers}
use ko_finance.JsonStore.{JsonStateStore}
use ko_finance.Payments.{extract_tier_from_order_id}
use ko_finance.Payments.Contexts.{record_order_context}
use ko_finance.Payments.Orders.{
  TossOrderRecord, Checkout, order_status_pending, record_checkout, get_order,
}
use ko_finance.Payments.OrderStatus.{OrderDefaults, update_order_status}
use ko_finance.Webhook.{Outside, Moment, Billing, default_order_name}

abbrev pub with_orders : JsonStateStore → Billing → Billing
with_orders orders s = record s { books = record s.books { orders = orders } }

-- `urlencode` is of the standard library.
module _ (o : Outside) (urlencode : List (Text × Text) → Text) (at : Moment) where
  -- `_build_redirect_path`
  abbrev pub build_redirect_path : Text → Checkout → Option Text → Text
  build_redirect_path base c redirect =
      let last : List (Text × Text) = elim redirect [
        | none ↦ []
        | some path ↦ (codes "redirectPath", path) ∷ []
      ] in
      base
      ++ (codes "?"
          ++ urlencode (
              (codes "orderId", c.order_id)
              ∷ (codes "tier", c.plan_tier)
              ∷ (codes "amount", o.lib.show (number c.amount))
              ∷ last))

  abbrev pub checkout_response : Checkout → Option Text → TossCheckoutCreateResponse
  checkout_response c redirect = record {
    order_id = c.order_id;
    plan_tier = c.plan_tier;
    amount = c.amount;
    currency = c.currency;
    order_name = c.order_name;
    success_path = build_redirect_path (codes "/payments/success") c redirect;
    fail_path = build_redirect_path (codes "/payments/fail") c redirect;
    status = order_status_pending;
    created_at = at.now_text;
  }

  -- `record_order_context` for an order.
  abbrev pub record_context :
      Text → Option Text → Option Text → Option Text → Billing → Bool × JsonStateStore
  record_context id org tier user s =
      record_order_context o.lib.show o.from_iso at.contexts_written at.now at.now_text id org tier
        user s.contexts

  abbrev pub placed_context :
      Checkout → Option Text → Billing → Response TossCheckoutCreateResponse × Billing
  placed_context c redirect s =
      let (written, contexts) = record_context c.order_id c.org_id (some c.plan_tier) c.user_id s in
      (
        if written then responds (checkout_response c redirect) else http_error 500,
        record s { contexts = contexts },
      )

  -- The order and its context are recorded.
  abbrev pub place_order :
      Checkout → Option Text → Billing → Response TossCheckoutCreateResponse × Billing
  place_order c redirect s =
      let (order, orders) =
        record_checkout o.lib.show at.orders_written at.now_text c s.books.orders in
      elim order [
        | none ↦ (http_error 500, with_orders orders s)
        | some r ↦ placed_context c redirect (with_orders orders s)
      ]

  abbrev pub priced_order :
      Text
      → Text
      → Option Text
      → TossCheckoutCreateRequest
      → Option (Option ℤ)
      → Billing
      → Response TossCheckoutCreateResponse × Billing
  priced_order digits user org p none s = (http_error 500, s)
  priced_order digits user org p (some none) s = (http_error 400, s)
  priced_order digits user org p (some (some amount)) s =
      place_order (requested_order digits user org p amount)
        (sanitize_redirect_path p.redirect_path) s

  -- `create_toss_checkout`, with the digits of the new id and the tiers of `load_plan_catalog()`.
  unfoldable pub create_toss_checkout :
      Text
      → List Fields
      → Caller
      → TossCheckoutCreateRequest
      → Billing
      → Response TossCheckoutCreateResponse × Billing
  create_toss_checkout digits catalog caller p s = elim caller.user [
    | none ↦ (http_error 401, s)
    | some user ↦
        if text_eq p.plan_tier (codes "free")
        then (http_error 400, s)
        else priced_order digits user caller.org p
            (resolve_plan_amount p.plan_tier p.amount catalog) s
  ]

  abbrev pub order_answer : Option (Option TossOrderRecord) → Response TossOrderRecord
  order_answer none = http_error 500
  order_answer (some none) = http_error 404
  order_answer (some (some r)) =
      if member r.plan_tier plan_tiers then responds r else http_error 500

  -- `read_toss_order`; a stored tier that is no plan tier fails the validation of the response.
  unfoldable pub read_toss_order : Caller → Text → Billing → Response TossOrderRecord × Billing
  read_toss_order caller id s = elim caller.user [
    | none ↦ (http_error 401, s)
    | some user ↦
        let (found, orders) = get_order o.lib.show at.now_text id s.books.orders in
        (order_answer found, with_orders orders s)
  ]

  abbrev pub confirm_defaults :
      Caller → TossPaymentsConfirmRequest → Option Text → Option OrderDefaults
  confirm_defaults caller p none = none
  confirm_defaults caller p (some tier) =
      if nonempty tier
      then some (record {
        plan_tier = some tier;
        amount = some (pos p.amount);
        currency = some (codes "KRW");
        order_name = some (default_order_name tier);
        user_id = caller.rbac_user;
        org_id = caller.org;
        metadata = none;
      })
      else none

  abbrev pub confirm_order :
      Caller
      → TossPaymentsConfirmRequest
      → Option Text
      → Fields
      → Billing
      → Response TossPaymentsConfirmResponse × Billing
  confirm_order caller p tier answer s =
      let (changed, orders) =
        update_order_status o.lib.show at.orders_written at.now_text p.order_id (codes "confirmed")
          (some (field (codes "paymentKey") (string p.payment_key) end))
          (confirm_defaults caller p tier) s.books.orders in
      (
        elim changed [ none ↦ http_error 500 | some r ↦ confirm_response p answer ],
        with_orders orders s,
      )

  -- The branch of a payment that the provider has confirmed.
  abbrev pub confirm_answer :
      Caller
      → TossPaymentsConfirmRequest
      → Fields
      → Billing
      → Response TossPaymentsConfirmResponse × Billing
  confirm_answer caller p answer s =
      let tier = or_else p.plan_tier (extract_tier_from_order_id (some p.order_id)) in
      let (written, contexts) = record_context p.order_id caller.org tier caller.rbac_user s in
      if written
      then confirm_order caller p tier answer (record s { contexts = contexts })
      else (http_error 500, record s { contexts = contexts })

  -- `confirm_toss_payment`
  unfoldable pub confirm_toss_payment :
      Caller
      → TossPaymentsConfirmRequest
      → TossReply
      → Billing
      → Response TossPaymentsConfirmResponse × Billing
  confirm_toss_payment caller p (confirmed answer) s = confirm_answer caller p answer s
  confirm_toss_payment caller p (toss_error code) s = (http_error code, s)
  confirm_toss_payment caller p config_missing s = (http_error 503, s)
  confirm_toss_payment caller p unreachable s = (http_error 500, s)
