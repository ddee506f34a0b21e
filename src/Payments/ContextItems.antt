-- ===== src/Payments/ContextItems.antt =====
-- What the context store writes is what it reads again.
use ko_finance.Common.{
  Text, codes, text_eq, nonempty, strip, strip_idem, some_text, Json, null, flag, number, real,
  string, array, object, Fields, field_of, truthy, Option, none, some, true, ◌&&◌, List, [], ◌∷◌,
  map, All, ◌≡◌, refl, ap, arith, Bool-cases, Option-cases, inl, inr, if◌then◌else◌,
}
use mathlib.Core.Path.{subst}
use ko_finance.JsonStore.{text_field, optional_field, optional_text, optional}
use ko_finance.Payments.Contexts.{
  OrderContext, context_dict, normalize_optional, load_context, load_context_items,
}
use ko_finance.Payments.Events.{strip-text_field}

-- An entry that is read again as it was written.
abbrev pub Clean : OrderContext → Type 0
Clean e =
    (strip e.order_id ≡ e.order_id)
    × (nonempty e.order_id ≡ true)
    × (strip e.created_at ≡ e.created_at)
    × (nonempty e.created_at ≡ true)
    × (normalize_optional e.org_id ≡ e.org_id)
    × (normalize_optional e.plan_slug ≡ e.plan_slug)
    × (normalize_optional e.user_id ≡ e.user_id)

normalize-some_text : (t : Text) → strip t ≡ t → normalize_optional (some_text t) ≡ some_text t
unfolding normalize_optional
normalize-some_text [] h = refl
normalize-some_text (c ∷ t) h = ap some_text h

pub normalize_optional_idem :
    (o : Option Text) → normalize_optional (normalize_optional o) ≡ normalize_optional o
unfolding normalize_optional
normalize_optional_idem none = refl
normalize_optional_idem (some s) = normalize-some_text (strip s) (strip_idem s)

pub normalize-optional :
    (show : Json → Text) (o : Option Text)
    → optional_text show (some (optional o)) ≡ normalize_optional o
unfolding normalize_optional
normalize-optional show none = refl
normalize-optional show (some s) = refl

pub normalize-optional_text :
    (show : Json → Text) (v : Option Json)
    → normalize_optional (optional_text show v) ≡ optional_text show v
unfolding normalize_optional
normalize-optional_text show none = refl
normalize-optional_text show (some null) = refl
normalize-optional_text show (some (string s)) = normalize-some_text (strip s) (strip_idem s)
normalize-optional_text show (some (flag b)) =
    normalize-some_text (strip (show (flag b))) (strip_idem (show (flag b)))
normalize-optional_text show (some (number n)) =
    normalize-some_text (strip (show (number n))) (strip_idem (show (number n)))
normalize-optional_text show (some (real n f)) =
    normalize-some_text (strip (show (real n f))) (strip_idem (show (real n f)))
normalize-optional_text show (some (array xs)) =
    normalize-some_text (strip (show (array xs))) (strip_idem (show (array xs)))
normalize-optional_text show (some (object fs)) =
    normalize-some_text (strip (show (object fs))) (strip_idem (show (object fs)))

-- The guard of the loop, on the values that it has read.
built-Clean :
    (id at : Text) (o p u : Option Text) (e : OrderContext)
    → strip id ≡ id
    → strip at ≡ at
    → normalize_optional o ≡ o
    → normalize_optional p ≡ p
    → normalize_optional u ≡ u
    → (if nonempty id && nonempty at
        then some
            (record { order_id = id; org_id = o; plan_slug = p; user_id = u; created_at = at })
        else none)
      ≡ some e
    → Clean e
built-Clean id at o p u e hi ha ho hp hu h = elim (Bool-cases (nonempty id && nonempty at)) [
  | inl full ↦
      let entry : OrderContext = record {
        order_id = id;
        org_id = o;
        plan_slug = p;
        user_id = u;
        created_at = at;
      } in
      let same : entry ≡ e = ground arith in
      let filled : (nonempty id ≡ true) × (nonempty at ≡ true) = ground arith in
      subst (λ (x : OrderContext). Clean x) same (hi, filled.0, ha, filled.1, ho, hp, hu)
  | inr empty ↦ absurd (ground arith)
]

module _ (show : Json → Text) where
  load_context-Clean :
      (item : Fields) (e : OrderContext) → load_context show item ≡ some e → Clean e
  unfolding load_context
  load_context-Clean item e h =
      built-Clean (text_field show (codes "order_id") item)
        (text_field show (codes "created_at") item) (optional_field show (codes "org_id") item)
        (optional_field show (codes "plan_slug") item) (optional_field show (codes "user_id") item)
        e (strip-text_field show (codes "order_id") item)
        (strip-text_field show (codes "created_at") item)
        (normalize-optional_text show (field_of (codes "org_id") item))
        (normalize-optional_text show (field_of (codes "plan_slug") item))
        (normalize-optional_text show (field_of (codes "user_id") item)) h

  pub load_context_items-Clean : (items : List Fields) → All Clean (load_context_items show items)
  load_context_items-Clean [] = tt
  load_context_items-Clean (item ∷ items) = elim (Option-cases (load_context show item)) [
    | inl e ↦ rw (All, e) (load_context_items-Clean items)
    | inr (entry, e) ↦ rw (All, e) (load_context-Clean item entry e, load_context_items-Clean items)
  ]

  -- What is written is read back.
  load_context-context_dict :
      (e : OrderContext) → Clean e → load_context show (context_dict e) ≡ some e
  unfolding load_context context_dict field_of text_eq truthy
  load_context-context_dict e h =
      rw
        (
          h.1,
          h.3,
          h.0,
          h.2,
          normalize-optional show e.org_id,
          normalize-optional show e.plan_slug,
          normalize-optional show e.user_id,
          h.4,
          h.5,
          h.6,
        )
        (rw (h.1, h.3) refl)

  pub load_context_items-context_dict :
      (entries : List OrderContext)
      → All Clean entries
      → load_context_items show (map context_dict entries) ≡ entries
  load_context_items-context_dict [] h = refl
  load_context_items-context_dict (e ∷ entries) h =
      rw (load_context_items, load_context-context_dict e h.0)
        (ap (λ (l : List OrderContext). e ∷ l) (load_context_items-context_dict entries h.1))
