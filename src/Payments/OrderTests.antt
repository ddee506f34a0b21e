-- ===== src/Payments/OrderTests.antt =====
-- The checkout of one order and its payment.
use ko_finance.Common.{
  Text, codes, text_eq, strip, lstrip, rstrip, is_space, Json, Fields, or_else, end, field, string,
  field_of, truthy, to_int, pos, none, some, true, ◌≡◌, refl, [], ◌∷◌, text_keys,
}
use ko_finance.JsonStore.{JsonStateStore, load, store}
use ko_finance.Payments.Contexts.{normalize_optional}
use ko_finance.Payments.Orders.{
  Checkout, TossOrderRecord, load_orders, pending_order, record_checkout, get_order, list_orders,
  store_orders, hydrate, hydrated, order_dict,
}
use ko_finance.Payments.OrderStatus.{with_status, update_order_status}
use ko_finance.Payments.OrderItems.{Clean}
use ko_finance.Payments.OrderUse.{get_order-update_order_status}

abbrev no_show : Json → Text
no_show v = []

abbrev empty_store : JsonStateStore
empty_store = record { cache = none; file = none }

abbrev checkout : Checkout
checkout = record {
  order_id = codes "o1";
  plan_tier = codes "pro";
  amount = pos 9900;
  currency = codes "KRW";
  order_name = codes "Pro";
  user_id = some (codes "u1");
  org_id = none;
  metadata = end;
}

abbrev monday : Text
monday = codes "2025-01-06"

abbrev tuesday : Text
tuesday = codes "2025-01-07"

abbrev pending : TossOrderRecord
pending = pending_order monday checkout

abbrev paid : TossOrderRecord
paid =
    with_status tuesday (codes "paid") (some (field (codes "status") (string (codes "DONE")) end))
      pending

abbrev trimmed : Unit {0}
unfolding normalize_optional strip lstrip rstrip is_space text_eq
trimmed = tt

pending-Clean : Clean pending
unfolding trimmed
pending-Clean = (
  (refl, refl),
  (refl, refl),
  (refl, refl),
  (refl, refl),
  (refl, refl),
  refl,
  refl,
  (refl, refl),
  (refl, refl),
)

paid-Clean : Clean paid
unfolding trimmed
paid-Clean = (
  (refl, refl),
  (refl, refl),
  (refl, refl),
  (refl, refl),
  (refl, refl),
  refl,
  refl,
  (refl, refl),
  (refl, refl),
)

nothing_stored : (load_orders no_show monday empty_store).0 ≡ some []
unfolding load_orders load
nothing_stored = refl

-- The order that is found is the order of the checkout, with the metadata of the update.
get_order-update_order_status_example :
    (merged : Fields) × ((get_order no_show tuesday
        (codes "o1")
        (update_order_status no_show true tuesday
          (codes "o1")
          (codes "paid")
          (some (field (codes "status") (string (codes "DONE")) end))
          none
          (record_checkout no_show true monday checkout empty_store).1).1).0
      ≡ some (
          some (record {
            order_id = codes "o1";
            plan_tier = codes "pro";
            amount = pos 9900;
            currency = codes "KRW";
            order_name = codes "Pro";
            status = codes "paid";
            user_id = some (codes "u1");
            org_id = none;
            created_at = codes "2025-01-06";
            updated_at = codes "2025-01-07";
            metadata = merged;
          })))
    × ((k : Text)
        → field_of k merged
          ≡ or_else
              (field_of k (field (codes "status") (string (codes "DONE")) end))
              (field_of k end))
unfolding field_of
get_order-update_order_status_example =
    get_order-update_order_status no_show monday tuesday tuesday (codes "paid")
      (some (field (codes "status") (string (codes "DONE")) end)) none checkout empty_store []
      nothing_stored pending-Clean paid-Clean (refl, tt)

-- A limit of 0 lists every order.
limit_0_lists_all :
    (list_orders no_show tuesday 0 (record_checkout no_show true monday checkout empty_store).1).0
    ≡ some (pending ∷ [])
unfolding list_orders record_checkout load_orders store_orders load store hydrate hydrated
    order_dict field_of truthy to_int text_eq normalize_optional strip lstrip rstrip is_space
limit_0_lists_all = refl
