-- ===== src/Webhook/Tests.antt =====
-- An order of the tier `pro` that is paid, and whose webhook is delivered twice.
use ko_finance.Common.{
  ℕ, Text, codes, text_eq, strip, lstrip, rstrip, lower, normalize, is_space, split_on, Fields,
  string, object, field, end, field_of, truthy, to_int, pos, Option, none, some, true, false, [],
  ◌∷◌, ◌≡◌, refl, arith,
}
use ko_finance.JsonStore.{JsonStateStore, load, store}
use ko_finance.Payments.{
  resolve_payment_status, resolve_order_id, extract_tier_from_order_id, build_webhook_dedupe_key,
  has_processed_webhook, load_events,
}
use ko_finance.Payments.Contexts.{normalize_optional}
use ko_finance.Payments.Orders.{Checkout, load_orders, pending_order, record_checkout}
use ko_finance.Payments.OrderStatus.{with_status}
use ko_finance.Payments.OrderItems.{Clean}
use ko_finance.PlanConfig.{default_plan_config}
use ko_finance.PlanConfig.Merge.{default-NormalTiers}
use ko_finance.PlanSettings.{Library, PersistedPlanSettings, no_trial, normalize_plan_tier}
use ko_finance.PlanSettings.Readback.{Reads, Storable}
use ko_finance.PlanSettings.Held.{Holds}
use ko_finance.Webhook.{
  parse_period_end, Outside, Request, Billing, Answer, accepted, verify_toss_webhook_signature,
}
use ko_finance.Webhook.Handler.{handle_toss_webhook}
use ko_finance.Webhook.Payment.{Payment, payment_event, read_payment, status_metadata}
use ko_finance.Webhook.Later.{delivered_later}
use ko_finance.Payments.Dedupe.{Delivery, record_deliveries}
use ko_finance.Webhook.Duplicates.{Delivers}
use ko_finance.Webhook.Paid.{Settled, paid_order-Settled}
use ko_finance.Webhook.Settling.{writing}

-- An instant is written as one letter whose code follows a `t`.
abbrev read_letter : Text → Option ℕ
read_letter (x ∷ c ∷ s) = some c
read_letter s = none

abbrev pub letters : Library
letters = record { show = λ v. []; iso = λ t. b't' ∷ t ∷ []; parse_iso = read_letter }

-- The signature of every message is `digest`.
abbrev pub shop : Outside
shop = record {
  lib = letters;
  env = record {
    default_tier = codes "free";
    default_entitlements = [];
    default_expires_at = none;
  };
  config = record { default_plan_slug = codes "free"; default_period_days = 30; redis_prefix = [] };
  from_iso = read_letter;
  from_timestamp = λ v. some none;
  parse_uuid = λ s. none;
  hmac = λ secret message. codes "digest";
  b64decode = λ s. some s;
  secret = some (codes "secret");
}

abbrev pub free_settings : PersistedPlanSettings
free_settings = record {
  plan_tier = codes "free";
  entitlements = codes "custom.flag" ∷ [];
  quota = record { chat = some (pos 20); rag = some (pos 4); self_check = false; peer = none };
  expires_at = none;
  updated_at = 10;
  updated_by = none;
  change_note = none;
  checkout_requested = true;
  memory_chat = false;
  trial_state = no_trial;
}

abbrev checkout : Checkout
checkout = record {
  order_id = codes "kfinance-pro-1";
  plan_tier = codes "pro";
  amount = pos 39000;
  currency = codes "KRW";
  order_name = codes "Pro";
  user_id = none;
  org_id = none;
  metadata = end;
}

abbrev pub empty_store : JsonStateStore
empty_store = record { cache = none; file = none }

abbrev pub opened : Billing
opened = record {
  books = record {
    plan = record {
      cache = some free_settings;
      file = none;
      base_entitlements = [];
      base_quotas = [];
      config = record { cache = some default_plan_config; file = none };
    };
    orders = (record_checkout letters.show true (codes "t1") checkout empty_store).1;
    service = record {
      plan_cache = [];
      org_plan_cache = [];
      tables = record {
        plans = [];
        next_plan = 1;
        subscriptions = [];
        entitlements = [];
        usage = [];
      };
    };
  };
  contexts = empty_store;
  events = empty_store;
}

abbrev paid_body : Fields
paid_body =
    field (codes "status") (string (codes "DONE"))
      (field (codes "orderId") (string (codes "kfinance-pro-1")) end)

abbrev pub request : Request
request = record {
  transmission_time = codes "t2";
  signature = codes "v1:other,v1:digest";
  transmission_id = some (codes "id-1");
  payload = some (codes "{}");
  event = some (
      object (
        field (codes "eventType") (string payment_event)
          (field (codes "data") (object paid_body) end)));
}

abbrev pub payment : Payment
payment = record {
  body = paid_body;
  status = some (codes "DONE");
  order_id = some (codes "kfinance-pro-1");
  key = some (codes "id-1");
  amount = none;
}

abbrev flows : Unit {0}
unfolding load store resolve_payment_status resolve_order_id extract_tier_from_order_id
    build_webhook_dedupe_key has_processed_webhook load_events load_orders normalize_optional
    normalize_plan_tier verify_toss_webhook_signature read_payment parse_period_end split_on
    field_of truthy to_int text_eq strip lstrip rstrip is_space lower normalize
flows = tt

pub request-Delivers : Delivers shop request payment
unfolding flows
request-Delivers = (
  field (codes "eventType") (string payment_event) (field (codes "data") (object paid_body) end),
  refl,
  refl,
  refl,
  refl,
)

pub letters-Reads : Reads letters
letters-Reads t = (refl, refl)

pub free-Storable : Storable letters free_settings
unfolding flows
free-Storable = (refl, (refl, refl, refl, tt), (tt, tt, tt), refl, refl, refl, omega arith)

pub opened-Holds : Holds free_settings opened.books.plan
opened-Holds = (refl, (default_plan_config, refl, default-NormalTiers, tt))

pending-Clean : Clean (pending_order (codes "t1") checkout)
unfolding flows
pending-Clean = (
  (refl, refl),
  (refl, refl),
  (refl, refl),
  (refl, refl),
  (refl, refl),
  refl,
  refl,
  (refl, refl),
  (refl, refl),
)

paid-Clean : Clean (
    with_status
      (codes "t2")
      (codes "paid")
      (some (status_metadata payment))
      (pending_order (codes "t1") checkout))
unfolding flows
paid-Clean = (
  (refl, refl),
  (refl, refl),
  (refl, refl),
  (refl, refl),
  (refl, refl),
  refl,
  refl,
  (refl, refl),
  (refl, refl),
)

abbrev delivery : Answer × Billing
delivery = handle_toss_webhook shop (writing 20 (codes "t2") true) request opened

paid_order-Settled_example :
    (delivery.0 ≡ accepted)
    × Settled shop 20
        (codes "t2")
        true
        payment
        (codes "pro")
        free_settings
        (codes "t1")
        (codes "t3")
        checkout
        delivery.1.books
        opened.books.plan
unfolding flows
paid_order-Settled_example =
    paid_order-Settled shop 20 (codes "t2") true letters-Reads request payment (codes "pro")
      (codes "t1") (codes "t3") free_settings checkout empty_store [] none opened request-Delivers
      refl refl refl refl refl refl free-Storable opened-Holds refl refl pending-Clean paid-Clean

first_accepted : delivery.0 ≡ accepted
unfolding flows
first_accepted =
    (paid_order-Settled shop 20 (codes "t2") true letters-Reads request payment (codes "pro")
      (codes "t1") (codes "t3") free_settings checkout empty_store [] none opened request-Delivers
      refl refl refl refl refl refl free-Storable opened-Holds refl refl pending-Clean paid-Clean).0

-- Another webhook is recorded before the payment is delivered again.
abbrev other_delivery : Delivery
other_delivery = record {
  key = codes "id-2";
  transmission_id = none;
  order_id = none;
  status = none;
  event_type = none;
  now = codes "t3";
}

abbrev after_other : Billing
after_other = record opened {
  events = record_deliveries letters.show (other_delivery ∷ []) delivery.1.events;
}

delivered_later_example :
    ((handle_toss_webhook shop (writing 30 (codes "t4") true) request after_other).0 ≡ accepted)
    × ((handle_toss_webhook shop (writing 30 (codes "t4") true) request after_other).1.books
        ≡ after_other.books)
    × ((handle_toss_webhook shop (writing 30 (codes "t4") true) request after_other).1.contexts
        ≡ after_other.contexts)
unfolding flows
delivered_later_example =
    delivered_later shop (writing 20 (codes "t2") true) (writing 30 (codes "t4") true) request
      request payment payment (codes "id-1") (other_delivery ∷ []) opened after_other
      request-Delivers request-Delivers refl refl refl refl refl refl first_accepted
      ((refl, refl, refl), tt) (omega arith) refl
