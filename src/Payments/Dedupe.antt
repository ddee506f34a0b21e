-- ===== src/Payments/Dedupe.antt =====
-- How long a processed webhook is recognised.
use ko_finance.Common.{
  All-append, All-keep, All-drop, ℕ, suc, ◌≤◌, ◌<◌, ◌-◌, ◌+◌, Text, text_eq, text_eq_iff,
  text_eq_refl, nonempty, strip, some_text, Json, Option, some, Bool, true, not, ◌||◌, List, [],
  ◌∷◌, ◌++◌, map, keep, exists, drop, take_last, length, length-append, length-keep, drop-append,
  All, ◌≡◌, refl, ap, ◌∙◌, sym, arith, Bool-cases, inl, inr,
}
use mathlib.Core.Path.{subst}
use ko_finance.JsonStore.{JsonStateStore, load, store}
use ko_finance.Payments.{
  StoredWebhookEvent, load_events, store_events, record_webhook_event, has_processed_webhook,
}
use ko_finance.Payments.Events.{
  Clean, key_of, record_key, load_all-as_dict, load_all-Clean, map-keep, map-append_one,
  map-take_last,
}

-- A webhook that is recorded, and the text of the instant.
pub record Delivery : Type 0 where
  pub key : Text
  pub transmission_id : Option Text
  pub order_id : Option Text
  pub status : Option Text
  pub event_type : Option Text
  pub now : Text

-- The key is not empty and has no white space around it, and the instant is not blank.
abbrev pub IsDelivery : Delivery → Type 0
IsDelivery d = (strip d.key ≡ d.key) × (nonempty d.key ≡ true) × (nonempty (strip d.now) ≡ true)

-- Recording a webhook in a file that can be written.
abbrev pub record_delivery : (Json → Text) → Delivery → JsonStateStore → JsonStateStore
record_delivery show d s =
    (record_webhook_event show true d.now (some d.key) d.transmission_id d.order_id d.status
      d.event_type s).1

abbrev pub record_deliveries : (Json → Text) → List Delivery → JsonStateStore → JsonStateStore
record_deliveries show [] s = s
record_deliveries show (d ∷ ds) s = record_deliveries show ds (record_delivery show d s)

abbrev delivered : Delivery → StoredWebhookEvent
delivered d = record {
  key = d.key;
  transmission_id = d.transmission_id;
  order_id = d.order_id;
  status = d.status;
  event_type = d.event_type;
  processed_at = d.now;
}

pub some_text_full : (k : Text) → nonempty k ≡ true → some_text k ≡ some k
some_text_full [] h = absurd (ground arith)
some_text_full (c ∷ k) h = refl

exists_key :
    (k : Text) (events : List StoredWebhookEvent)
    → exists (λ e. text_eq e.key k) events ≡ exists (λ j. text_eq j k) (map key_of events)
exists_key k [] = refl
exists_key k (e ∷ events) = ap (λ b. text_eq e.key k || b) (exists_key k events)

module _ (show : Json → Text) where
  -- The keys of the store, the latest last.
  abbrev pub keys : JsonStateStore → List Text
  keys s = map key_of (load_events show s).0

  -- Recording moves the key to the end of the keys, of which the last 200 are kept.
  keys-record_delivery :
      (d : Delivery) (s : JsonStateStore)
      → IsDelivery d
      → keys (record_delivery show d s) ≡ record_key d.key (keys s)
  unfolding record_webhook_event load_events store_events load store
  keys-record_delivery d s h =
      let events = (load_events show s).0 in
      let apart = keep (λ (e : StoredWebhookEvent). not (text_eq e.key d.key)) events in
      let kept = apart ++ delivered d ∷ [] in
      let clean : All Clean kept =
        All-append Clean apart (delivered d ∷ [])
          (All-keep Clean (λ e. not (text_eq e.key d.key)) events (load_all-Clean show (load s).0))
          (h, tt) in
      rw (record_delivery, record_webhook_event, some_text_full d.key h.1)
        (load_all-as_dict show (take_last 200 kept) (All-drop Clean (length kept - 200) kept clean)
          ∙ map-take_last kept
          ∙ ap (take_last 200) (
              map-append_one apart (delivered d)
              ∙ ap (λ (ks : List Text). ks ++ d.key ∷ [])
                  (map-keep (λ j. not (text_eq j d.key)) events)))

  recognised_by_key :
      (k : Text) (s : JsonStateStore)
      → nonempty k ≡ true
      → (has_processed_webhook show (some k) s).0 ≡ exists (λ j. text_eq j k) (keys s)
  unfolding has_processed_webhook
  recognised_by_key k s h =
      rw (has_processed_webhook, some_text_full k h) (exists_key k (load_events show s).0)

module _ (show : Json → Text) where
  -- The stored webhooks implement a list of keys in the order of their last recording, of which the
  -- last 200 are kept: recording a webhook, in a file that can be written, moves its key to the end, and
  -- a key that is not empty is recognised exactly when it is in the list.
  pub refines_recent_keys :
      (s : JsonStateStore)
      → ((d : Delivery)
          → IsDelivery d
          → keys show (record_delivery show d s) ≡ record_key d.key (keys show s))
        × ((k : Text)
            → nonempty k ≡ true
            → (has_processed_webhook show (some k) s).0 ≡ exists (λ j. text_eq j k) (keys show s))
  refines_recent_keys s =
      (λ d h. keys-record_delivery show d s h, λ k h. recognised_by_key show k s h)

-- `k` is among the keys, with at most `m` others after it.
abbrev Within : Text → ℕ → List Text → Type 0
Within k m keys =
    (before : List Text) × (after : List Text) × (keys ≡ before ++ k ∷ after) × (length after ≤ m)

keep_apart :
    (p : Text → Bool) (k : Text) (before after : List Text)
    → p k ≡ true
    → keep p (before ++ k ∷ after) ≡ keep p before ++ k ∷ keep p after
keep_apart p k [] after h = rw h refl
keep_apart p k (j ∷ before) after h = ground (arith, keep_apart p k before after h)

exists_within :
    (k : Text) (before after : List Text) → exists (λ j. text_eq j k) (before ++ k ∷ after) ≡ true
exists_within k [] after = rw (text_eq_refl k) refl
exists_within k (j ∷ before) after = ground (arith, exists_within k before after)

append_assoc : (xs ys zs : List Text) → (xs ++ ys) ++ zs ≡ xs ++ (ys ++ zs)
append_assoc [] ys zs = refl
append_assoc (x ∷ xs) ys zs = ap (λ (ks : List Text). x ∷ ks) (append_assoc xs ys zs)

-- A cut from the front leaves what stands near the end.
take_last-Within :
    (k : Text) (before after : List Text)
    → length after < 200
    → Within k (length after) (take_last 200 (before ++ k ∷ after))
take_last-Within k before after h = (
  drop (length (before ++ k ∷ after) - 200) before,
  after,
  drop-append (length (before ++ k ∷ after) - 200) before (k ∷ after)
      (omega (arith, length-append before (k ∷ after))),
  omega arith,
)

record_key-Within :
    (j k : Text) (m : ℕ) (ks : List Text)
    → m < 199
    → Within k m ks
    → Within k (suc m) (record_key j ks)
record_key-Within j k m ks h (before, after, split, few) = elim (Bool-cases (text_eq k j)) [
  | inl e ↦
      let same : k ≡ j = (text_eq_iff k j).0 e in
      let (b, a, at_end, none_after) =
        take_last-Within k (keep (λ i. not (text_eq i j)) ks) [] (omega arith) in
      (
        b,
        a,
        ap (λ i. take_last 200 (keep (λ l. not (text_eq l j)) ks ++ i ∷ [])) (sym same) ∙ at_end,
        omega (arith, none_after),
      )
  | inr e ↦
      let p = λ (i : Text). not (text_eq i j) in
      let kept : keep p ks ≡ keep p before ++ k ∷ keep p after =
        rw split (keep_apart p k before after (rw e refl)) in
      let count : length (keep p after ++ j ∷ []) ≤ suc m =
        omega (arith, length-append (keep p after) (j ∷ []), length-keep p after) in
      let (b, a, cut, few_after) =
        take_last-Within k (keep p before) (keep p after ++ j ∷ []) (omega arith) in
      (
        b,
        a,
        ap (λ (l : List Text). take_last 200 (l ++ j ∷ [])) kept
            ∙ ap (take_last 200) (append_assoc (keep p before) (k ∷ keep p after) (j ∷ []))
            ∙ cut,
        omega arith,
      )
]

module _ (show : Json → Text) where
  deliveries-Within :
      (k : Text) (m : ℕ) (ds : List Delivery) (s : JsonStateStore)
      → All IsDelivery ds
      → m + length ds < 200
      → Within k m (keys show s)
      → Within k (m + length ds) (keys show (record_deliveries show ds s))
  deliveries-Within k m [] s h fits w = let (b, a, split, few) = w in (b, a, split, omega arith)
  deliveries-Within k m (d ∷ ds) s h fits w =
      let next : Within k (suc m) (keys show (record_delivery show d s)) =
        subst (λ (ks : List Text). Within k (suc m) ks) (sym (keys-record_delivery show d s h.0))
          (record_key-Within d.key k m (keys show s) (omega arith) w) in
      let (b, a, split, few) =
        deliveries-Within k (suc m) ds (record_delivery show d s) h.1 (omega arith) next in
      (b, a, split, omega arith)

  -- A recorded webhook is recognised as processed after up to 199 further recordings, if the keys
  -- are not empty and have no white space around them, and the file can be written.
  pub recognised_after :
      (d : Delivery) (ds : List Delivery) (s : JsonStateStore)
      → IsDelivery d
      → All IsDelivery ds
      → length ds < 200
      → (has_processed_webhook show
          (some d.key)
          (record_deliveries show ds (record_delivery show d s))).0
        ≡ true
  recognised_after d ds s h hs fits =
      let first : Within d.key 0 (keys show (record_delivery show d s)) =
        subst (λ (ks : List Text). Within d.key 0 ks) (sym (keys-record_delivery show d s h))
          (take_last-Within d.key (keep (λ j. not (text_eq j d.key)) (keys show s)) []
            (omega arith)) in
      let (before, after, split, few) =
        deliveries-Within d.key 0 ds (record_delivery show d s) hs (omega arith) first in
      recognised_by_key show d.key (record_deliveries show ds (record_delivery show d s)) h.1
      ∙ rw split (exists_within d.key before after)
