-- ===== src/Payments/OrderStatus.antt =====
-- services/payments/toss_order_store.py, `update_order_status`.
use ko_finance.Common.{
  ℤ, pos, Text, codes, text_eq, or_text, nonempty, Json, Fields, end, field, Option, none, some,
  or_default, Bool, List, [], ◌∷◌, ◌++◌, find, if◌then◌else◌,
}
use ko_finance.JsonStore.{JsonStateStore}
use ko_finance.Payments.Contexts.{normalize_optional}
use ko_finance.Payments.Orders.{TossOrderRecord, load_orders, store_orders, owns}

-- `metadata[k] = v`
abbrev pub set_field : Text → Json → Fields → Fields
set_field k v end = field k v end
set_field k v (field j w fs) =
    let rest = set_field k v fs in if text_eq j k then field j v fs else field j w rest

-- `merged.update(metadata)`
abbrev pub merge_fields : Fields → Fields → Fields
merge_fields fs end = fs
merge_fields fs (field k v more) = merge_fields (set_field k v fs) more

-- `defaults`, where it is given and not empty.
pub record OrderDefaults : Type 0 where
  pub plan_tier : Option Text
  pub amount : Option ℤ
  pub currency : Option Text
  pub order_name : Option Text
  pub user_id : Option Text
  pub org_id : Option Text
  pub metadata : Option Fields

-- The order that is created; `none` without a plan tier.
abbrev pub default_order : Text → Text → Text → OrderDefaults → Option TossOrderRecord
default_order now id status d =
    let tier = or_default d.plan_tier [] in
    if nonempty tier
    then some (record {
      order_id = id;
      plan_tier = tier;
      amount = or_default d.amount (pos 0);
      currency = or_text (or_default d.currency []) (codes "KRW");
      order_name =
          or_text (or_default d.order_name []) (codes "Nuvien " ++ (tier ++ codes " 플랜 구독"));
      status = status;
      user_id = normalize_optional d.user_id;
      org_id = normalize_optional d.org_id;
      created_at = now;
      updated_at = now;
      metadata = or_default d.metadata end;
    })
    else none

abbrev created : Text → Text → Text → Option OrderDefaults → Option TossOrderRecord
created now id status none = none
created now id status (some d) = default_order now id status d

abbrev pub with_status : Text → Text → Option Fields → TossOrderRecord → TossOrderRecord
with_status now status metadata r = record r {
  status = status;
  updated_at = now;
  metadata = merge_fields r.metadata (or_default metadata end);
}

-- The first order with the id, changed in its place.
abbrev pub change_first :
    Text → (TossOrderRecord → TossOrderRecord) → List TossOrderRecord → List TossOrderRecord
change_first id f [] = []
change_first id f (r ∷ rs) =
    let rest = change_first id f rs in if owns id r then f r ∷ rs else r ∷ rest

abbrev pub answered :
    TossOrderRecord → Bool × JsonStateStore → Option (Option TossOrderRecord) × JsonStateStore
answered r (written, s) = (if written then some (some r) else none, s)

module _ (show : Json → Text) where
  -- The answer is `none` for an exception and `some none` when there is no order and no default.
  unfoldable pub update_order_status :
      Bool
      → Text
      → Text
      → Text
      → Option Fields
      → Option OrderDefaults
      → JsonStateStore
      → Option (Option TossOrderRecord) × JsonStateStore
  unfolding load_orders store_orders
  update_order_status written now id status metadata defaults s =
      let (loaded, s') = load_orders show now s in
      let change = with_status now status metadata in
      elim loaded [
        | none ↦ (none, s')
        | some records ↦ elim (find (owns id) records) [
          | some r ↦ answered (change r) (store_orders written (change_first id change records) s')
          | none ↦ elim (created now id status defaults) [
            | none ↦ (some none, s')
            | some r ↦ answered (change r) (store_orders written (records ++ change r ∷ []) s')
          ]
        ]
      ]
