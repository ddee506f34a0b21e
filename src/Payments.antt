-- ===== src/Payments.antt =====
-- The Toss payment webhooks: services/payments/toss_webhook_store.py, which remembers the deliveries
-- that have been processed, and services/payments/toss_webhook_utils.py.
pub mod Contexts
pub mod ContextItems
pub mod ContextUse
pub mod Orders
pub mod OrderStatus
pub mod OrderItems
pub mod OrderStore
pub mod OrderUse
pub mod Merged
mod OrderTests
pub mod Events
pub mod Tier
pub mod Dedupe
mod Tests
use ko_finance.Common.{
  ℕ, Text, codes, text_eq, nonempty, some_text, member, split_on, Json, string, object, Fields, end,
  field, field_of, truthy, Option, none, some, or_default, Bool, true, false, not, ◌&&◌, List, [],
  ◌∷◌, ◌++◌, map, keep, exists, take_last, if◌then◌else◌, ◌-◌, leb,
}
use ko_finance.PlanTiers.{plan_tiers}
use ko_finance.JsonStore.{JsonStateStore, load, store, text_field, optional_field, optional}

-- `_StoredWebhookEvent`
pub record StoredWebhookEvent : Type 0 where
  pub key : Text
  pub transmission_id : Option Text
  pub order_id : Option Text
  pub status : Option Text
  pub event_type : Option Text
  pub processed_at : Text

abbrev pub max_recorded_events : ℕ
max_recorded_events = 200

-- `asdict(event)`
unfoldable pub as_dict : StoredWebhookEvent → Fields
as_dict e = field (codes "key") (string e.key) (
    field (codes "transmission_id") (optional e.transmission_id) (
      field (codes "order_id") (optional e.order_id) (
        field (codes "status") (optional e.status) (
          field (codes "event_type") (optional e.event_type)
            (field (codes "processed_at") (string e.processed_at) end)))))

module _ (show : Json → Text) where
  -- An item without a key or an instant is left out.
  unfoldable pub load_event : Fields → Option StoredWebhookEvent
  load_event item =
      let key = text_field show (codes "key") item in
      let processed_at = text_field show (codes "processed_at") item in
      if nonempty key && nonempty processed_at
      then some (record {
        key = key;
        transmission_id = optional_field show (codes "transmission_id") item;
        order_id = optional_field show (codes "order_id") item;
        status = optional_field show (codes "status") item;
        event_type = optional_field show (codes "event_type") item;
        processed_at = processed_at;
      })
      else none

  -- The loop of `_load_events`.
  abbrev pub load_all : List Fields → List StoredWebhookEvent
  load_all [] = []
  load_all (item ∷ items) =
      let rest = load_all items in elim (load_event item) [ none ↦ rest | some e ↦ e ∷ rest ]

  -- `_load_events`
  unfoldable pub load_events : JsonStateStore → List StoredWebhookEvent × JsonStateStore
  unfolding load
  load_events s = let (items, s') = load s in (load_all items, s')

  -- `_store_events`
  unfoldable pub store_events :
      Bool → List StoredWebhookEvent → JsonStateStore → Bool × JsonStateStore
  unfolding store
  store_events written events s =
      store written (map as_dict (take_last max_recorded_events events)) s

  -- `if not key:`
  abbrev pub given : Option Text → Option Text
  given none = none
  given (some k) = some_text k

  -- `has_processed_webhook`
  unfoldable pub has_processed_webhook : Option Text → JsonStateStore → Bool × JsonStateStore
  unfolding load_events
  has_processed_webhook key s = elim (given key) [
    | none ↦ (false, s)
    | some k ↦ let (events, s') = load_events s in (exists (λ e. text_eq e.key k) events, s')
  ]

  -- `record_webhook_event`, at the instant whose text is `now`.
  unfoldable pub record_webhook_event :
      Bool
      → Text
      → Option Text
      → Option Text
      → Option Text
      → Option Text
      → Option Text
      → JsonStateStore
      → Bool × JsonStateStore
  unfolding load_events store_events
  record_webhook_event written now key transmission_id order_id status event_type s =
      elim (given key) [
        | none ↦ (true, s)
        | some k ↦
            let (events, s') = load_events s in
            store_events written
              (keep (λ e. not (text_eq e.key k)) events
                ++ record {
                  key = k;
                  transmission_id = transmission_id;
                  order_id = order_id;
                  status = status;
                  event_type = event_type;
                  processed_at = now;
                }
                  ∷ [])
              s'
      ]

-- `event.get("data") or {}`; `none` is the AttributeError of a value that is neither false nor an
-- object.
abbrev pub data_of : Fields → Option Fields
data_of event = elim (field_of (codes "data") event) [
  | none ↦ some end
  | some (object fs) ↦ some fs
  | some v ↦ if truthy v then none else some end
]

-- `data.get(key) or event.get(key)`, if it is a text.
abbrev pub text_under : Text → Fields → Fields → Option Text
text_under key body event =
    let of_event = as_text (field_of key event) in
    elim (field_of key body) [
      | none ↦ of_event
      | some v ↦ if truthy v then as_text (some v) else of_event
    ]
  where
    as_text : Option Json → Option Text
    as_text (some (string s)) = some s
    as_text _ = none

abbrev upper_text : Option Text → Option Text
upper_text none = none
upper_text (some s) = some (map (λ c. if leb 97 c && leb c 122 then c - 32 else c) s)

-- `resolve_payment_status`; the outer `none` is the AttributeError.
unfoldable pub resolve_payment_status : Fields → Option (Option Text)
resolve_payment_status event = elim (data_of event) [
  | none ↦ none
  | some body ↦ some (upper_text (text_under (codes "status") body event))
]

-- `resolve_order_id`
unfoldable pub resolve_order_id : Fields → Option (Option Text)
resolve_order_id event = elim (data_of event) [
  | none ↦ none
  | some body ↦ some (text_under (codes "orderId") body event)
]

abbrev pub tier_part : List Text → Option Text
tier_part (prefix ∷ tier ∷ rest ∷ more) =
    if text_eq prefix (codes "kfinance") && member tier plan_tiers then some tier else none
tier_part _ = none

-- `extract_tier_from_order_id`
unfoldable pub extract_tier_from_order_id : Option Text → Option Text
extract_tier_from_order_id order_id = elim order_id [
  | none ↦ none
  | some s ↦ if nonempty s then tier_part (split_on b'-' s) else none
]

-- `build_webhook_dedupe_key`
unfoldable pub build_webhook_dedupe_key : Option Text → Option Text → Option Text → Option Text
build_webhook_dedupe_key transmission_id order_id status =
    if nonempty (or_default transmission_id [])
    then transmission_id
    else (if nonempty (or_default order_id [])
        then (if nonempty (or_default status [])
            then some (or_default order_id [] ++ (codes ":" ++ or_default status []))
            else order_id)
        else none)

-- web/routers/payments.py, `_generate_order_id`, with the random digits of the UUID.
unfoldable pub generate_order_id : Text → Text → Text
generate_order_id tier digits = codes "kfinance" ++ b'-' ∷ (tier ++ b'-' ∷ digits)
