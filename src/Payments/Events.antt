-- ===== src/Payments/Events.antt =====
-- The keys that the store of processed webhooks holds, as an independent list.
use ko_finance.Common.{
  ℕ, zero, suc, Text, codes, text_eq, nonempty, strip, lstrip, rstrip, strip_idem, Json, Fields,
  field_of, truthy, Option, none, some, Bool, true, false, not, ◌&&◌, List, [], ◌∷◌, ◌++◌, map,
  keep, drop, take_last, length, All, ◌≡◌, refl, ap, ◌∙◌, sym, arith, Bool-cases, Option-cases, inl,
  inr, ◌-◌, if◌then◌else◌,
}
use mathlib.Core.Path.{subst}
use ko_finance.JsonStore.{text_field, optional_field, text_of}
use ko_finance.Payments.{StoredWebhookEvent, as_dict, load_event, load_all}

-- What survives being written and read again.
abbrev pub Clean : StoredWebhookEvent → Type 0
Clean e = (strip e.key ≡ e.key) × (nonempty e.key ≡ true) × (nonempty (strip e.processed_at) ≡ true)

-- Moving a key to the end, and keeping the last 200.
abbrev pub record_key : Text → List Text → List Text
record_key k keys = take_last 200 (keep (λ j. not (text_eq j k)) keys ++ k ∷ [])

abbrev pub key_of : StoredWebhookEvent → Text
key_of e = e.key

pub map-keep :
    (p : Text → Bool) (xs : List StoredWebhookEvent)
    → map key_of (keep (λ e. p e.key) xs) ≡ keep p (map key_of xs)
map-keep p [] = refl
map-keep p (x ∷ xs) = elim (Bool-cases (p x.key)) [
  | inl e ↦ rw e (ap (λ (ks : List Text). x.key ∷ ks) (map-keep p xs))
  | inr e ↦ rw e (map-keep p xs)
]

pub map-append_one :
    (xs : List StoredWebhookEvent) (x : StoredWebhookEvent)
    → map key_of (xs ++ x ∷ []) ≡ map key_of xs ++ x.key ∷ []
map-append_one [] x = refl
map-append_one (y ∷ xs) x = ap (λ (ks : List Text). y.key ∷ ks) (map-append_one xs x)

map-drop : (n : ℕ) (xs : List StoredWebhookEvent) → map key_of (drop n xs) ≡ drop n (map key_of xs)
map-drop zero xs = refl
map-drop (suc n) [] = refl
map-drop (suc n) (x ∷ xs) = map-drop n xs

length-map : (xs : List StoredWebhookEvent) → length (map key_of xs) ≡ length xs
length-map [] = refl
length-map (x ∷ xs) = ap suc (length-map xs)

pub map-take_last :
    (xs : List StoredWebhookEvent) → map key_of (take_last 200 xs) ≡ take_last 200 (map key_of xs)
map-take_last xs = map-drop (length xs - 200) xs ∙ rw (length-map xs) refl

nil_of_empty : (x : Text) → nonempty x ≡ false → x ≡ []
nil_of_empty [] h = refl
nil_of_empty (c ∷ x) h = absurd (ground arith)

pub strip-nil : strip [] ≡ []
unfolding strip lstrip rstrip
strip-nil = refl

-- The guard of the loop, on the two texts that it tests.
built-Clean :
    (key at : Text) (t o u v : Option Text) (e : StoredWebhookEvent)
    → strip key ≡ key
    → strip at ≡ at
    → (if nonempty key && nonempty at
        then some (record {
          key = key;
          transmission_id = t;
          order_id = o;
          status = u;
          event_type = v;
          processed_at = at;
        })
        else none)
      ≡ some e
    → Clean e
built-Clean key at t o u v e hk ha h = elim (Bool-cases (nonempty key && nonempty at)) [
  | inl full ↦
      let event : StoredWebhookEvent = record {
        key = key;
        transmission_id = t;
        order_id = o;
        status = u;
        event_type = v;
        processed_at = at;
      } in
      let same : event ≡ e = ground arith in
      let filled : (nonempty key ≡ true) × (nonempty at ≡ true) = ground arith in
      subst (λ (x : StoredWebhookEvent). Clean x) same (hk, filled.0, rw ha filled.1)
  | inr empty ↦ absurd (ground arith)
]

module _ (show : Json → Text) where
  pub strip-text_field :
      (k : Text) (item : Fields) → strip (text_field show k item) ≡ text_field show k item
  strip-text_field k item = elim (Option-cases (field_of k item)) [
    | inl e ↦ rw (text_field, e) strip-nil
    | inr (v, e) ↦ elim (Bool-cases (truthy v)) [
      | inl full ↦ rw (text_field, e, full) (strip_idem (text_of show v))
      | inr empty ↦ rw (text_field, e, empty) strip-nil
    ]
  ]

  load_event-Clean :
      (item : Fields) (e : StoredWebhookEvent) → load_event show item ≡ some e → Clean e
  unfolding load_event
  load_event-Clean item e h =
      built-Clean (text_field show (codes "key") item) (text_field show (codes "processed_at") item)
        (optional_field show (codes "transmission_id") item)
        (optional_field show (codes "order_id") item) (optional_field show (codes "status") item)
        (optional_field show (codes "event_type") item) e (strip-text_field (codes "key") item)
        (strip-text_field (codes "processed_at") item) h

  text_field-key :
      (e : StoredWebhookEvent)
      → nonempty e.key ≡ true
      → text_field show (codes "key") (as_dict e) ≡ strip e.key
  unfolding as_dict field_of text_eq truthy
  text_field-key e h = rw h refl

  text_field-at :
      (e : StoredWebhookEvent)
      → nonempty (strip e.processed_at) ≡ true
      → text_field show (codes "processed_at") (as_dict e) ≡ strip e.processed_at
  unfolding as_dict field_of text_eq truthy
  text_field-at e h = elim (Bool-cases (nonempty e.processed_at)) [
    | inl full ↦ rw full refl
    | inr empty ↦ rw empty (sym (ap strip (nil_of_empty e.processed_at empty) ∙ strip-nil))
  ]

  -- The event that is read again after it has been written.
  abbrev reread : StoredWebhookEvent → StoredWebhookEvent
  reread e = record {
    key = e.key;
    transmission_id = optional_field show (codes "transmission_id") (as_dict e);
    order_id = optional_field show (codes "order_id") (as_dict e);
    status = optional_field show (codes "status") (as_dict e);
    event_type = optional_field show (codes "event_type") (as_dict e);
    processed_at = strip e.processed_at;
  }

  load_event-as_dict :
      (e : StoredWebhookEvent) → Clean e → load_event show (as_dict e) ≡ some (reread e)
  unfolding load_event
  load_event-as_dict e h = rw (text_field-key e h.1, text_field-at e h.2, h.0, h.1, h.2) refl

  pub load_all-Clean : (items : List Fields) → All Clean (load_all show items)
  load_all-Clean [] = tt
  load_all-Clean (item ∷ items) = elim (Option-cases (load_event show item)) [
    | inl e ↦ rw (All, e) (load_all-Clean items)
    | inr (event, e) ↦ rw (All, e) (load_event-Clean item event e, load_all-Clean items)
  ]

  pub load_all-as_dict :
      (events : List StoredWebhookEvent)
      → All Clean events
      → map key_of (load_all show (map as_dict events)) ≡ map key_of events
  load_all-as_dict [] h = refl
  load_all-as_dict (e ∷ events) h =
      rw (map, load_event-as_dict e h.0)
        (ap (λ (ks : List Text). e.key ∷ ks) (load_all-as_dict events h.1))
