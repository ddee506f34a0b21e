-- ===== src/Payments/OrderStore.antt =====
-- The orders of a store that has just been written.
use ko_finance.Common.{
  ◌-◌, Text, text_eq, nonempty, Json, Fields, Option, none, some, true, false, List, [], ◌∷◌, ◌++◌,
  map, find, drop, take_last, length, All, find-append_none, find-drop-none, take_last-append_one,
  ◌≡◌, refl, sym, ap, ◌∙◌, arith, Option-cases, inl, inr, All-drop,
}
use mathlib.Core.Path.{subst}
use ko_finance.JsonStore.{JsonStateStore, load, store}
use ko_finance.Payments.Orders.{
  TossOrderRecord, order_dict, hydrated, hydrate, hydrate_items, load_orders, store_orders, owns,
  consed,
}
use ko_finance.Payments.OrderStatus.{change_first}
use ko_finance.Payments.OrderItems.{
  Storable, Clean, hydrate-order_dict, hydrated-Clean, hydrate-Storable, read_Storable, id_read,
  tier_read,
}

pub find-append_last :
    (id : Text) (rs : List TossOrderRecord) (r : TossOrderRecord)
    → find (owns id) rs ≡ none
    → owns id r ≡ true
    → find (owns id) (rs ++ r ∷ []) ≡ some r
find-append_last id rs r h own = find-append_none (owns id) rs (r ∷ []) h ∙ rw own refl

pub change_first-last :
    (id : Text) (f : TossOrderRecord → TossOrderRecord) (rs : List TossOrderRecord)
    (r : TossOrderRecord)
    → find (owns id) rs ≡ none
    → owns id r ≡ true
    → change_first id f (rs ++ r ∷ []) ≡ rs ++ f r ∷ []
change_first-last id f [] r h own = rw own refl
change_first-last id f (q ∷ rs) r h own =
    let apart : owns id q ≡ false = ground arith in
    rw (change_first, apart, change_first-last id f rs r (ground arith) own) refl

module _ (show : Json → Text) where
  consed-none : (o : Option TossOrderRecord) → consed show o none ≡ none
  consed-none none = refl
  consed-none (some r) = refl

  consed-Storable :
      (now : Text) (item : Fields) (o : Option TossOrderRecord) (rest rs : List TossOrderRecord)
      → hydrate show now item ≡ some o
      → All Storable rest
      → consed show o (some rest) ≡ some rs
      → All Storable rs
  consed-Storable now item none rest rs e all h =
      let same : rest ≡ rs = ground arith in
      subst (λ (l : List TossOrderRecord). All Storable l) same all
  consed-Storable now item (some r) rest rs e all h =
      let same : r ∷ rest ≡ rs = ground arith in
      subst (λ (l : List TossOrderRecord). All Storable l) same
        (hydrate-Storable show now item r e, all)

  pub hydrate_items-Storable :
      (now : Text) (items : List Fields) (rs : List TossOrderRecord)
      → hydrate_items show now items ≡ some rs
      → All Storable rs
  hydrate_items-Storable now [] rs h =
      let same : [] ≡ rs = ground arith in
      subst (λ (l : List TossOrderRecord). All Storable l) same tt
  hydrate_items-Storable now (item ∷ items) rs h = elim (Option-cases (hydrate show now item)) [
    | inl e ↦
        let raised : hydrate_items show now (item ∷ items) ≡ none = rw (hydrate_items, e) refl in
        absurd (ground arith)
    | inr (o, e) ↦ elim (Option-cases (hydrate_items show now items)) [
      | inl e' ↦
          let raised : hydrate_items show now (item ∷ items) ≡ none =
            rw (hydrate_items, e, e') (consed-none o) in
          absurd (ground arith)
      | inr (rest, e') ↦
          let all = hydrate_items-Storable now items rest e' in
          let whole : hydrate_items show now (item ∷ items) ≡ consed show o (some rest) =
            rw (hydrate_items, e, e') refl in
          let read : consed show o (some rest) ≡ some rs = sym whole ∙ h in
          consed-Storable now item o rest rs e all read
    ]
  ]

  owned :
      (now : Text) (q : TossOrderRecord)
      → Storable q
      → (hydrated show now (order_dict q) q.amount).order_id ≡ q.order_id
  unfolding hydrated
  owned now q h = id_read show q h.0

  reread_Storable :
      (now : Text) (q : TossOrderRecord)
      → Storable q
      → Storable (hydrated show now (order_dict q) q.amount)
  reread_Storable now q h =
      read_Storable show now (order_dict q) q.amount (ap nonempty (id_read show q h.0) ∙ h.0.1)
        (ap nonempty (tier_read show q h.1) ∙ h.1.1)

  -- Orders that are written, the last of them read back as it is.
  abbrev Reread : Text → Text → List Fields → TossOrderRecord → Type 0
  Reread now id items r =
      (rs : List TossOrderRecord) × (hydrate_items show now items ≡ some (rs ++ r ∷ []))
      × (find (owns id) rs ≡ none)
      × All Storable rs

  hydrate_items-order_dict :
      (now id : Text) (rs : List TossOrderRecord) (r : TossOrderRecord)
      → All Storable rs
      → find (owns id) rs ≡ none
      → Clean r
      → Reread now id (map order_dict (rs ++ r ∷ [])) r
  hydrate_items-order_dict now id [] r all none_of clean = (
    [],
    rw
        (
          hydrate_items,
          hydrate-order_dict show now r (clean.0, clean.1),
          hydrated-Clean show now r clean,
        )
        refl,
    refl,
    tt,
  )
  hydrate_items-order_dict now id (q ∷ rs) r all none_of clean =
      let q' = hydrated show now (order_dict q) q.amount in
      let (rs', read, none_read, all_read) =
        hydrate_items-order_dict now id rs r all.1 (ground arith) clean in
      let apart : text_eq q.order_id id ≡ false = ground arith in
      let apart_read : owns id q' ≡ false = rw (owned now q all.0) apart in
      (
        q' ∷ rs',
        rw (map, hydrate_items, hydrate-order_dict show now q all.0, read) refl,
        rw (apart_read, none_read) refl,
        (reread_Storable now q all.0, all_read),
      )

  -- The orders of a store that has just been written with `r` last.
  pub store-last :
      (now id : Text) (rs : List TossOrderRecord) (r : TossOrderRecord) (s : JsonStateStore)
      → All Storable rs
      → find (owns id) rs ≡ none
      → Clean r
      → (left : List TossOrderRecord) × ((load_orders show now
            (store_orders true (rs ++ r ∷ []) s).1).0
          ≡ some (left ++ r ∷ []))
        × (find (owns id) left ≡ none)
        × All Storable left
  unfolding load_orders store_orders load store
  store-last now id rs r s all none_of clean =
      let cut = length rs - 399 in
      let last : take_last 400 (rs ++ r ∷ []) ≡ drop cut rs ++ r ∷ [] =
        take_last-append_one 399 rs r in
      let (left, read, none_left, all_left) =
        hydrate_items-order_dict now id (drop cut rs) r (All-drop Storable cut rs all)
          (find-drop-none (owns id) cut rs none_of) clean in
      (
        left,
        ap (λ (l : List TossOrderRecord). hydrate_items show now (map order_dict l)) last ∙ read,
        none_left,
        all_left,
      )
