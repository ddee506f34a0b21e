-- ===== src/Payments/Contexts.antt =====
-- services/payments/order_context_store.py: what organization and plan an order belongs to, kept for
-- 72 hours in a JSON file.
use ko_finance.Common.{
  ℕ, ◌+◌, Text, codes, text_eq, nonempty, strip, some_text, Json, string, Fields, end, field,
  Option, none, some, Bool, true, false, not, ◌&&◌, List, [], ◌∷◌, ◌++◌, map, keep, find, take_last,
  leb, if◌then◌else◌,
}
use ko_finance.JsonStore.{JsonStateStore, load, store, text_field, optional_field, optional}

pub record OrderContext : Type 0 where
  pub order_id : Text
  pub org_id : Option Text
  pub plan_slug : Option Text
  pub user_id : Option Text
  pub created_at : Text

abbrev pub max_contexts : ℕ
max_contexts = 300

-- 72 hours.
abbrev pub ttl_seconds : ℕ
ttl_seconds = 259200

-- `asdict(entry)`
unfoldable pub context_dict : OrderContext → Fields
context_dict e = field (codes "order_id") (string e.order_id) (
    field (codes "org_id") (optional e.org_id) (
      field (codes "plan_slug") (optional e.plan_slug) (
        field (codes "user_id") (optional e.user_id)
          (field (codes "created_at") (string e.created_at) end))))

-- `_normalize_optional` on an argument.
unfoldable pub normalize_optional : Option Text → Option Text
normalize_optional none = none
normalize_optional (some s) = some_text (strip s)

-- `parse_iso` is `datetime.fromisoformat` on texts with an offset; `none` is its ValueError.
module _ (parse_iso : Text → Option ℕ) where
  -- `created >= cutoff`
  abbrev pub is_fresh : ℕ → OrderContext → Bool
  is_fresh now e = elim (parse_iso e.created_at) [
    | none ↦ false
    | some created ↦ leb now (created + ttl_seconds)
  ]

  -- `_prune_expired`
  abbrev pub prune_expired : ℕ → List OrderContext → List OrderContext
  prune_expired now entries = keep (is_fresh now) entries

-- The entry that `pop_order_context` takes out, and the others.
unfoldable pub take_out : Text → List OrderContext → Option OrderContext × List OrderContext
take_out id [] = (none, [])
take_out id (e ∷ entries) =
    let (found, remaining) = take_out id entries in
    if text_eq e.order_id id then (some e, entries) else (found, e ∷ remaining)

module _ (show : Json → Text) where
  -- An item without an order id or an instant is left out.
  unfoldable pub load_context : Fields → Option OrderContext
  load_context item =
      let order_id = text_field show (codes "order_id") item in
      let created_at = text_field show (codes "created_at") item in
      if nonempty order_id && nonempty created_at
      then some (record {
        order_id = order_id;
        org_id = optional_field show (codes "org_id") item;
        plan_slug = optional_field show (codes "plan_slug") item;
        user_id = optional_field show (codes "user_id") item;
        created_at = created_at;
      })
      else none

  abbrev pub load_context_items : List Fields → List OrderContext
  load_context_items [] = []
  load_context_items (item ∷ items) =
      let rest = load_context_items items in
      elim (load_context item) [ none ↦ rest | some e ↦ e ∷ rest ]

  -- `_load_contexts`
  unfoldable pub load_contexts : JsonStateStore → List OrderContext × JsonStateStore
  unfolding load
  load_contexts s = let (items, s') = load s in (load_context_items items, s')

  -- `_store_contexts`
  unfoldable pub store_contexts : Bool → List OrderContext → JsonStateStore → Bool × JsonStateStore
  unfolding store
  store_contexts written entries s =
      store written (map context_dict (take_last max_contexts entries)) s

  -- `get_order_context`; it does not look at the age of an entry.
  unfoldable pub get_order_context : Text → JsonStateStore → Option OrderContext × JsonStateStore
  unfolding load_contexts
  get_order_context id s =
      let (entries, s') = load_contexts s in
      if nonempty id then (find (λ e. text_eq e.order_id id) entries, s') else (none, s)

abbrev pub new_context : Text → Text → Option Text → Option Text → Option Text → OrderContext
new_context now_text id org plan user = record {
  order_id = id;
  org_id = normalize_optional org;
  plan_slug = normalize_optional plan;
  user_id = normalize_optional user;
  created_at = now_text;
}

module _ (show : Json → Text) (parse_iso : Text → Option ℕ) where
  -- `record_order_context` at the instant `now`, whose text is `now_text`.
  unfoldable pub record_order_context :
      Bool
      → ℕ
      → Text
      → Text
      → Option Text
      → Option Text
      → Option Text
      → JsonStateStore
      → Bool × JsonStateStore
  unfolding load_contexts store_contexts normalize_optional
  record_order_context written now now_text id org plan user s =
      let (entries, s') = load_contexts show s in
      let others = keep (λ (e : OrderContext). not (text_eq e.order_id id)) entries in
      let entry = new_context now_text id org plan user in
      if nonempty id
      then store_contexts show written (prune_expired parse_iso now (others ++ entry ∷ [])) s'
      else (true, s)

  -- `pop_order_context`: what it returns, and whether the file could be written.
  unfoldable pub pop_order_context :
      Bool → ℕ → Text → JsonStateStore → Option OrderContext × (Bool × JsonStateStore)
  unfolding load_contexts store_contexts take_out
  pop_order_context written now id s =
      let (entries, s') = load_contexts show s in
      let (found, remaining) = take_out id entries in
      let popped = store_contexts show written (prune_expired parse_iso now remaining) s' in
      if nonempty id
      then elim found [ none ↦ (none, (true, s')) | some e ↦ (some e, popped) ]
      else (none, (true, s))
