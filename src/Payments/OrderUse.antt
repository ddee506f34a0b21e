-- ===== src/Payments/OrderUse.antt =====
-- An order is found after its checkout has been recorded, with the status that it was given last.
use ko_finance.Common.{
  codes, or_text, end, field_of, or_default, or_else, Text, text_eq_refl, nonempty, Json, Fields,
  Option, none, some, true, not, List, [], ◌∷◌, ◌++◌, keep, find, All, find-keep-not, ◌≡◌, refl, ap,
  ◌∙◌, All-keep,
}
use ko_finance.JsonStore.{JsonStateStore, load, store}
use ko_finance.Payments.Orders.{
  TossOrderRecord, Checkout, load_orders, store_orders, pending_order, record_checkout, get_order,
  owns, stored,
}
use ko_finance.Payments.OrderStatus.{
  merge_fields, OrderDefaults, with_status, change_first, update_order_status, answered,
}
use ko_finance.Payments.Merged.{KeysOnce, field_of-merge_fields}
use ko_finance.Payments.OrderItems.{Storable, Clean}
use ko_finance.Payments.OrderStore.{
  find-append_last, change_first-last, hydrate_items-Storable, store-last,
}

-- The order of a checkout that was placed at `placed`, with this status since `moment` and with these
-- metadata, written out from the fields of the checkout.
abbrev pub order_of : Text → Text → Text → Fields → Checkout → TossOrderRecord
order_of placed moment status metadata c = record {
  order_id = c.order_id;
  plan_tier = c.plan_tier;
  amount = c.amount;
  currency = or_text c.currency (codes "KRW");
  order_name = c.order_name;
  status = status;
  user_id = c.user_id;
  org_id = c.org_id;
  created_at = placed;
  updated_at = moment;
  metadata = metadata;
}

module _ (show : Json → Text) where
  record_lem :
      (now : Text) (c : Checkout) (s : JsonStateStore) (records : List TossOrderRecord)
      → nonempty c.order_id ≡ true
      → (load_orders show now s).0 ≡ some records
      → record_checkout show true now c s
        ≡ stored (pending_order now c) (
            store_orders true
              (keep (λ r. not (owns c.order_id r)) records ++ pending_order now c ∷ [])
              (load_orders show now s).1)
  unfolding record_checkout
  record_lem now c s records h loaded = rw (record_checkout, h, loaded) refl

  pub record_checkout-some :
      (now : Text) (c : Checkout) (s : JsonStateStore) (records : List TossOrderRecord)
      → nonempty c.order_id ≡ true
      → (load_orders show now s).0 ≡ some records
      → (record_checkout show true now c s).0 ≡ some (pending_order now c)
  unfolding store_orders store
  record_checkout-some now c s records h loaded =
      ap (λ (w : Option TossOrderRecord × JsonStateStore). w.0)
        (record_lem now c s records h loaded)

  -- The orders after a checkout has been recorded.
  recorded-last :
      (now later : Text) (c : Checkout) (s : JsonStateStore) (records : List TossOrderRecord)
      → (load_orders show now s).0 ≡ some records
      → Clean (pending_order now c)
      → (left : List TossOrderRecord) × ((load_orders show later
            (record_checkout show true now c s).1).0
          ≡ some (left ++ pending_order now c ∷ []))
        × (find (owns c.order_id) left ≡ none)
        × All Storable left
  unfolding load_orders
  recorded-last now later c s records loaded clean =
      let kept = keep (λ (r : TossOrderRecord). not (owns c.order_id r)) records in
      let all = hydrate_items-Storable show now (load s).0 records loaded in
      let (left, read, none_left, all_left) =
        store-last show later c.order_id kept (pending_order now c) (load s).1
          (All-keep Storable (λ r. not (owns c.order_id r)) records all)
          (find-keep-not (owns c.order_id) records) clean in
      (
        left,
        ap (λ (w : Option TossOrderRecord × JsonStateStore). (load_orders show later w.1).0)
              (record_lem now c s records clean.0.1 loaded)
            ∙ read,
        none_left,
        all_left,
      )

  -- After the checkout of an order has been recorded, the order is found, pending, as the checkout
  -- gave it, for texts that are read back as they are written, if the stored orders can be read and
  -- the file can be written.
  pub get_order-record_checkout :
      (now later : Text) (c : Checkout) (s : JsonStateStore) (records : List TossOrderRecord)
      → (load_orders show now s).0 ≡ some records
      → Clean (pending_order now c)
      → (get_order show later c.order_id (record_checkout show true now c s).1).0
        ≡ some (some (order_of now now (codes "pending") c.metadata c))
  unfolding get_order
  get_order-record_checkout now later c s records loaded clean =
      let (left, read, none_left, all_left) = recorded-last now later c s records loaded clean in
      rw (get_order, read)
        (ap some (
          find-append_last c.order_id left (pending_order now c) none_left
            (text_eq_refl c.order_id)))

  update_lem :
      (now id status : Text) (metadata : Option Fields) (defaults : Option OrderDefaults)
      (s : JsonStateStore) (records : List TossOrderRecord) (r : TossOrderRecord)
      → (load_orders show now s).0 ≡ some records
      → find (owns id) records ≡ some r
      → update_order_status show true now id status metadata defaults s
        ≡ answered (with_status now status metadata r) (
            store_orders true
              (change_first id (with_status now status metadata) records)
              (load_orders show now s).1)
  unfolding update_order_status
  update_lem now id status metadata defaults s records r loaded found =
      rw (update_order_status, loaded) (rw found refl)

  -- The update of a recorded order answers with the order.
  pub update_order_status-record_checkout :
      (now moment status : Text) (metadata : Option Fields) (defaults : Option OrderDefaults)
      (c : Checkout) (s : JsonStateStore) (records : List TossOrderRecord)
      → (load_orders show now s).0 ≡ some records
      → Clean (pending_order now c)
      → (update_order_status show true moment c.order_id status metadata defaults
          (record_checkout show true now c s).1).0
        ≡ some (some (with_status moment status metadata (pending_order now c)))
  unfolding store_orders store
  update_order_status-record_checkout now moment status metadata defaults c s records loaded clean =
      let r = pending_order now c in
      let (left, read, none_left, all_left) = recorded-last now moment c s records loaded clean in
      ap (λ (w : Option (Option TossOrderRecord) × JsonStateStore). w.0)
        (update_lem moment c.order_id status metadata defaults (record_checkout show true now c s).1
          (left ++ r ∷ []) r read
          (find-append_last c.order_id left r none_left (text_eq_refl c.order_id)))

  -- The order is found as the update has left it.
  pub updated_found :
      (now moment later status : Text) (metadata : Option Fields) (defaults : Option OrderDefaults)
      (c : Checkout) (s : JsonStateStore) (records : List TossOrderRecord)
      → (load_orders show now s).0 ≡ some records
      → Clean (pending_order now c)
      → Clean (with_status moment status metadata (pending_order now c))
      → (get_order show later c.order_id
          (update_order_status show true moment c.order_id status metadata defaults
            (record_checkout show true now c s).1).1).0
        ≡ some (some (with_status moment status metadata (pending_order now c)))
  unfolding get_order
  updated_found now moment later status metadata defaults c s records loaded clean changed =
      let id = c.order_id in
      let r = pending_order now c in
      let change = with_status moment status metadata in
      let s1 = (record_checkout show true now c s).1 in
      let (left, read, none_left, all_left) = recorded-last now moment c s records loaded clean in
      let update =
        update_lem moment id status metadata defaults s1 (left ++ r ∷ []) r read
          (find-append_last id left r none_left (text_eq_refl id)) in
      let moved = change_first-last id change left r none_left (text_eq_refl id) in
      let s2 = (load_orders show moment s1).1 in
      let (left', read', none_left', all_left') =
        store-last show later id left (change r) s2 all_left none_left changed in
      let after : (load_orders show later
            (update_order_status show true moment id status metadata defaults s1).1).0
          ≡ some (left' ++ change r ∷ []) =
        ap
          (λ (w : Option (Option TossOrderRecord) × JsonStateStore). (load_orders show later w.1).0)
          update
        ∙ ap (λ (l : List TossOrderRecord). (load_orders show later (store_orders true l s2).1).0)
            moved
        ∙ read' in
      rw (get_order, after)
        (ap some (find-append_last id left' (change r) none_left' (text_eq_refl id)))

  -- After the status of an order whose checkout has just been recorded is updated, the order is found
  -- with the new status and instant, with the id, the tier, the amount and what else the checkout
  -- gave, and with metadata in which each key has the value that the update gave, or else the one of
  -- the checkout; for texts that are read back as they are written, if no key of the update stands
  -- twice, the stored orders can be read and the file can be written.
  pub get_order-update_order_status :
      (now moment later status : Text) (metadata : Option Fields) (defaults : Option OrderDefaults)
      (c : Checkout) (s : JsonStateStore) (records : List TossOrderRecord)
      → (load_orders show now s).0 ≡ some records
      → Clean (pending_order now c)
      → Clean (with_status moment status metadata (pending_order now c))
      → KeysOnce (or_default metadata end)
      → (merged : Fields) × ((get_order show later c.order_id
            (update_order_status show true moment c.order_id status metadata defaults
              (record_checkout show true now c s).1).1).0
          ≡ some (some (order_of now moment status merged c)))
        × ((k : Text)
            → field_of k merged
              ≡ or_else (field_of k (or_default metadata end)) (field_of k c.metadata))
  get_order-update_order_status now moment later status metadata defaults c s records loaded clean
        changed once =
      (
        merge_fields c.metadata (or_default metadata end),
        updated_found now moment later status metadata defaults c s records loaded clean changed,
        λ k. field_of-merge_fields k c.metadata (or_default metadata end) once,
      )

  -- The same for an id and for orders that equal those of the checkout: the update answers with the
  -- order, and the order is found.
  pub update_order_status_lem :
      (now moment later status : Text) (metadata : Option Fields) (defaults : Option OrderDefaults)
      (c : Checkout) (s orders : JsonStateStore) (records : List TossOrderRecord) (id : Text)
      → id ≡ c.order_id
      → orders ≡ (record_checkout show true now c s).1
      → (load_orders show now s).0 ≡ some records
      → Clean (pending_order now c)
      → Clean (with_status moment status metadata (pending_order now c))
      → let w = update_order_status show true moment id status metadata defaults orders in
        (w.0 ≡ some (some (with_status moment status metadata (pending_order now c))))
        × ((get_order show later c.order_id w.1).0
            ≡ some (some (with_status moment status metadata (pending_order now c))))
  update_order_status_lem now moment later status metadata defaults c s orders records id same after
        loaded clean changed =
      let change = λ (i : Text) (x : JsonStateStore).
        update_order_status show true moment i status metadata defaults x in
      let eq : change id orders ≡ change c.order_id (record_checkout show true now c s).1 =
        ap (λ (i : Text). change i orders) same ∙ ap (change c.order_id) after in
      (
        ap (λ (w : Option (Option TossOrderRecord) × JsonStateStore). w.0) eq
            ∙ update_order_status-record_checkout now moment status metadata defaults c s records
                loaded clean,
        ap
              (λ (w : Option (Option TossOrderRecord) × JsonStateStore).
                (get_order show later c.order_id w.1).0)
              eq
            ∙ updated_found now moment later status metadata defaults c s records loaded clean
                changed,
      )
