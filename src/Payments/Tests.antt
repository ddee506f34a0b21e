-- ===== src/Payments/Tests.antt =====
-- Webhooks of two orders, and the tier of an order.
use ko_finance.Common.{
  ℕ, nonempty, exists, Option, Text, codes, text_eq, strip, lstrip, rstrip, is_space, split_on,
  Json, field_of, truthy, none, some, true, false, ◌≡◌, refl, arith, [], ◌∷◌, field, end, string,
  object,
}
use ko_finance.JsonStore.{JsonStateStore, load, store}
use ko_finance.Payments.{
  extract_tier_from_order_id, generate_order_id, has_processed_webhook, record_webhook_event,
  load_events, load_event, store_events, as_dict, build_webhook_dedupe_key, resolve_payment_status,
}
use ko_finance.Payments.Dedupe.{
  Delivery, IsDelivery, record_delivery, record_deliveries, recognised_after, keys,
  refines_recent_keys,
}
use ko_finance.Payments.Events.{record_key}
use ko_finance.Payments.Contexts.{
  OrderContext, normalize_optional, new_context, record_order_context, get_order_context,
  pop_order_context,
}
use ko_finance.Payments.ContextItems.{Clean}
use ko_finance.Payments.ContextUse.{pop-record}
use ko_finance.Payments.Tier.{extract_tier-generate_order_id}

abbrev no_show : Json → Text
no_show v = []

abbrev delivery : Text → Delivery
delivery k = record {
  key = k;
  transmission_id = none;
  order_id = some (codes "kfinance-pro-77");
  status = some (codes "DONE");
  event_type = none;
  now = codes "2025-01-01";
}

abbrev empty_store : JsonStateStore
empty_store = record { cache = none; file = none }

first_IsDelivery : IsDelivery (delivery (codes "a1"))
unfolding strip lstrip rstrip is_space
first_IsDelivery = (refl, refl, refl)

second_IsDelivery : IsDelivery (delivery (codes "b2"))
unfolding strip lstrip rstrip is_space
second_IsDelivery = (refl, refl, refl)

recognised_after_example :
    (has_processed_webhook no_show (some (codes "a1")) (
      record_deliveries no_show
        (delivery (codes "b2") ∷ [])
        (record_delivery no_show (delivery (codes "a1")) empty_store))).0
    ≡ true
recognised_after_example =
    recognised_after no_show (delivery (codes "a1")) (delivery (codes "b2") ∷ []) empty_store
      first_IsDelivery (second_IsDelivery, tt) (omega arith)

refines_recent_keys_example :
    ((d : Delivery)
      → IsDelivery d
      → keys no_show (record_delivery no_show d empty_store)
        ≡ record_key d.key (keys no_show empty_store))
    × ((k : Text)
        → nonempty k ≡ true
        → (has_processed_webhook no_show (some k) empty_store).0
          ≡ exists (λ j. text_eq j k) (keys no_show empty_store))
refines_recent_keys_example = refines_recent_keys no_show empty_store

-- A key with white space at its end is not recognised: the store strips it when it reads it.
abbrev flows : Unit {0}
unfolding has_processed_webhook record_webhook_event load_events load_event store_events as_dict
    load store text_eq field_of truthy strip lstrip rstrip is_space
flows = tt

untrimmed_key_is_forgotten :
    (has_processed_webhook no_show
      (some (codes "a1 "))
      (record_delivery no_show (delivery (codes "a1 ")) empty_store)).0
    ≡ false
unfolding flows
untrimmed_key_is_forgotten = refl

extract_tier-generate_order_id_example :
    extract_tier_from_order_id (some (codes "kfinance-pro-0f3a")) ≡ some (codes "pro")
unfolding generate_order_id text_eq
extract_tier-generate_order_id_example =
    extract_tier-generate_order_id (codes "pro") (codes "0f3a") refl

other_prefix_has_no_tier : extract_tier_from_order_id (some (codes "order-pro-1")) ≡ none
unfolding extract_tier_from_order_id split_on text_eq
other_prefix_has_no_tier = refl

key_without_transmission :
    build_webhook_dedupe_key none (some (codes "o1")) (some (codes "DONE")) ≡ some (codes "o1:DONE")
unfolding build_webhook_dedupe_key
key_without_transmission = refl

status_of_the_data :
    resolve_payment_status
      (field (codes "data") (object (field (codes "status") (string (codes "done")) end)) end)
    ≡ some (some (codes "DONE"))
unfolding resolve_payment_status field_of text_eq truthy
status_of_the_data = refl

-- A clock whose texts are all the instant 1000.
abbrev at_1000 : Text → Option ℕ
at_1000 t = some 1000

abbrev context_recorded : JsonStateStore
context_recorded =
    (record_order_context no_show at_1000 true 1000 (codes "2025-01-01") (codes "o1")
      (some (codes " org-7 ")) none none empty_store).1

abbrev context : OrderContext
context = record {
  order_id = codes "o1";
  org_id = some (codes "org-7");
  plan_slug = none;
  user_id = none;
  created_at = codes "2025-01-01";
}

abbrev trimmed : Unit {0}
unfolding normalize_optional strip lstrip rstrip is_space
trimmed = tt

context-Clean :
    Clean (new_context (codes "2025-01-01") (codes "o1") (some (codes " org-7 ")) none none)
unfolding trimmed
context-Clean = (refl, refl, refl, refl, refl, refl, refl)

pop-record_example :
    ((pop_order_context no_show at_1000 true 2000 (codes "o1") context_recorded).0 ≡ some context)
    × ((get_order_context no_show
          (codes "o1")
          (pop_order_context no_show at_1000 true 2000 (codes "o1") context_recorded).1.1).0
        ≡ none)
unfolding trimmed
pop-record_example =
    pop-record no_show at_1000 1000 (codes "2025-01-01") (codes "o1") (some (codes " org-7 ")) none
      none empty_store 2000 context-Clean refl
