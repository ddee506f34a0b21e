-- ===== src/Payments/Orders.antt =====
-- services/payments/toss_order_store.py: the orders of the checkout and their status, in a JSON file.
-- One call reads the clock once; its text is `now`.
use ko_finance.Common.{
  ℕ, ℤ, pos, Text, codes, text_eq, nonempty, or_text, strip, Json, number, string, object, Fields,
  end, field, field_of, truthy, to_int, Option, none, some, Bool, not, ◌&&◌, List, [], ◌∷◌, ◌++◌,
  map, keep, find, take_last, if◌then◌else◌,
}
use ko_finance.JsonStore.{JsonStateStore, load, store, text_of, optional_text, optional}
use ko_finance.Entitlement.Billing.{title}

pub record TossOrderRecord : Type 0 where
  pub order_id : Text
  pub plan_tier : Text
  pub amount : ℤ
  pub currency : Text
  pub order_name : Text
  pub status : Text
  pub user_id : Option Text
  pub org_id : Option Text
  pub created_at : Text
  pub updated_at : Text
  pub metadata : Fields

abbrev pub max_orders : ℕ
max_orders = 400

abbrev pub order_status_pending : Text
order_status_pending = codes "pending"

-- `asdict(record)`
unfoldable pub order_dict : TossOrderRecord → Fields
order_dict r = field (codes "order_id") (string r.order_id) (
    field (codes "plan_tier") (string r.plan_tier) (
      field (codes "amount") (number r.amount) (
        field (codes "currency") (string r.currency) (
          field (codes "order_name") (string r.order_name) (
            field (codes "status") (string r.status) (
              field (codes "user_id") (optional r.user_id) (
                field (codes "org_id") (optional r.org_id) (
                  field (codes "created_at") (string r.created_at) (
                    field (codes "updated_at") (string r.updated_at)
                      (field (codes "metadata") (object r.metadata) end))))))))))

-- `item.get(a) or item.get(b)`
abbrev pub either_field : Text → Text → Fields → Option Json
either_field a b item = elim (field_of a item) [
  | none ↦ field_of b item
  | some v ↦ if truthy v then some v else field_of b item
]

-- `int(item.get("amount") or 0)`; `none` is its exception.
abbrev pub amount_of : Option Json → Option ℤ
amount_of none = some (pos 0)
amount_of (some v) = if truthy v then to_int v else some (pos 0)

abbrev pub metadata_of : Option Json → Fields
metadata_of (some (object fs)) = fs
metadata_of _ = end

module _ (show : Json → Text) where
  -- `str(value or default).strip()`
  abbrev pub text_or : Option Json → Text → Text
  text_or none default = strip default
  text_or (some v) default = if truthy v then strip (text_of show v) else strip default

  abbrev pub id_text : Fields → Text
  id_text item = text_or (either_field (codes "order_id") (codes "orderId") item) []

  abbrev pub tier_text : Fields → Text
  tier_text item = text_or (either_field (codes "plan_tier") (codes "planTier") item) []

  abbrev pub created_text : Text → Fields → Text
  created_text now item = text_or (either_field (codes "created_at") (codes "createdAt") item) now

  -- The record of an item with this amount.
  unfoldable pub hydrated : Text → Fields → ℤ → TossOrderRecord
  hydrated now item amount =
      let order_name = text_or (either_field (codes "order_name") (codes "orderName") item) [] in
      record {
        order_id = id_text item;
        plan_tier = tier_text item;
        amount = amount;
        currency = or_text (text_or (field_of (codes "currency") item) (codes "KRW")) (codes "KRW");
        order_name =
            or_text order_name (codes "Nuvien " ++ (title (tier_text item) ++ codes " 플랜"));
        status =
            or_text (text_or (field_of (codes "status") item) order_status_pending)
              order_status_pending;
        user_id = optional_text show (either_field (codes "user_id") (codes "userId") item);
        org_id = optional_text show (either_field (codes "org_id") (codes "orgId") item);
        created_at = created_text now item;
        updated_at =
            text_or (either_field (codes "updated_at") (codes "updatedAt") item)
              (created_text now item);
        metadata = metadata_of (field_of (codes "metadata") item);
      }

  -- `_hydrate`: an item without an id or a tier is left out, and an amount that is no number raises
  -- an exception, the outer `none`.
  unfoldable pub hydrate : Text → Fields → Option (Option TossOrderRecord)
  unfolding hydrated
  hydrate now item =
      if nonempty (id_text item) && nonempty (tier_text item)
      then elim (amount_of (field_of (codes "amount") item)) [
        | none ↦ none
        | some amount ↦ some (some (hydrated now item amount))
      ]
      else some none

  abbrev pub consed :
      Option TossOrderRecord → Option (List TossOrderRecord) → Option (List TossOrderRecord)
  consed r none = none
  consed none (some rs) = some rs
  consed (some r) (some rs) = some (r ∷ rs)

  -- The loop of `_load_orders`.
  abbrev pub hydrate_items : Text → List Fields → Option (List TossOrderRecord)
  hydrate_items now [] = some []
  hydrate_items now (item ∷ items) =
      let rest = hydrate_items now items in
      elim (hydrate now item) [ none ↦ none | some r ↦ consed r rest ]

  -- `_load_orders`
  unfoldable pub load_orders :
      Text → JsonStateStore → Option (List TossOrderRecord) × JsonStateStore
  unfolding load
  load_orders now s = let (items, s') = load s in (hydrate_items now items, s')

-- `_store_orders`
unfoldable pub store_orders : Bool → List TossOrderRecord → JsonStateStore → Bool × JsonStateStore
unfolding store
store_orders written records s = store written (map order_dict (take_last max_orders records)) s

-- The arguments of `record_checkout`.
pub record Checkout : Type 0 where
  pub order_id : Text
  pub plan_tier : Text
  pub amount : ℤ
  pub currency : Text
  pub order_name : Text
  pub user_id : Option Text
  pub org_id : Option Text
  pub metadata : Fields

abbrev pub pending_order : Text → Checkout → TossOrderRecord
pending_order now c = record {
  order_id = c.order_id;
  plan_tier = c.plan_tier;
  amount = c.amount;
  currency = or_text c.currency (codes "KRW");
  order_name = c.order_name;
  status = order_status_pending;
  user_id = c.user_id;
  org_id = c.org_id;
  created_at = now;
  updated_at = now;
  metadata = c.metadata;
}

-- The answer of a call that has stored a record; `none` is the OSError.
abbrev pub stored :
    TossOrderRecord → Bool × JsonStateStore → Option TossOrderRecord × JsonStateStore
stored r (written, s) = (if written then some r else none, s)

abbrev pub owns : Text → TossOrderRecord → Bool
owns id r = text_eq r.order_id id

module _ (show : Json → Text) where
  -- `record_checkout`; `none` is an exception.
  unfoldable pub record_checkout :
      Bool → Text → Checkout → JsonStateStore → Option TossOrderRecord × JsonStateStore
  unfolding load_orders store_orders
  record_checkout written now c s =
      let (loaded, s') = load_orders show now s in
      if nonempty c.order_id
      then elim loaded [
        | none ↦ (none, s')
        | some records ↦ stored (pending_order now c) (
            store_orders written
              (keep (λ r. not (owns c.order_id r)) records ++ pending_order now c ∷ []) s')
      ]
      else (none, s)

  -- `get_order`; the outer `none` is an exception.
  unfoldable pub get_order :
      Text → Text → JsonStateStore → Option (Option TossOrderRecord) × JsonStateStore
  unfolding load_orders
  get_order now id s =
      let (loaded, s') = load_orders show now s in
      (elim loaded [ none ↦ none | some records ↦ some (find (owns id) records) ], s')

  -- `list_orders`; a limit of 0 gives all orders.
  unfoldable pub list_orders :
      Text → ℕ → JsonStateStore → Option (List TossOrderRecord) × JsonStateStore
  unfolding load_orders
  list_orders now limit s =
      let (loaded, s') = load_orders show now s in
      (elim loaded [ none ↦ none | some records ↦ some (take_last limit records) ], s')
