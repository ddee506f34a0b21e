-- ===== src/Webhook/Recognised.antt =====
-- A webhook that has been recorded is recognised, in the file and in memory.
use ko_finance.Common.{
  Text, nonempty, text_eq, some_text, Json, Fields, Option, none, some, Bool, true, false, List, [],
  exists, ◌≡◌, refl, sym, ap, ◌∙◌, arith,
}
use ko_finance.JsonStore.{JsonStateStore, load, store}
use ko_finance.Payments.{
  load_all, load_events, store_events, has_processed_webhook, record_webhook_event,
}
use ko_finance.Payments.Dedupe.{
  record_delivery, Delivery, IsDelivery, recognised_after, some_text_full,
}

load_idem : (s : JsonStateStore) → load (load s).1 ≡ load s
unfolding load
load_idem s = again s.cache s.file
  where
    again :
        (c f : Option (List Fields))
        → load (load (record { cache = c; file = f })).1 ≡ load (record { cache = c; file = f })
    again none f = refl
    again (some xs) f = refl

module _ (show : Json → Text) where
  asked : (k : Text) (s : JsonStateStore) → Bool × JsonStateStore
  asked k s = (exists (λ e. text_eq e.key k) (load_events show s).0, (load_events show s).1)

  asked_lem :
      (k : Text) (s : JsonStateStore)
      → nonempty k ≡ true
      → has_processed_webhook show (some k) s ≡ asked k s
  unfolding has_processed_webhook asked
  asked_lem k s h = rw (has_processed_webhook, some_text_full k h) refl

  -- Asking for a key does not change the answer.
  pub asked_again :
      (k : Text) (s : JsonStateStore)
      → nonempty k ≡ true
      → (has_processed_webhook show (some k) (has_processed_webhook show (some k) s).1).0
        ≡ (has_processed_webhook show (some k) s).0
  unfolding asked load_events
  asked_again k s h =
      let one = asked_lem k s h in
      ap (λ (w : Bool × JsonStateStore). (has_processed_webhook show (some k) w.1).0) one
      ∙ ap (λ (w : Bool × JsonStateStore). w.0) (asked_lem k (load s).1 h)
      ∙ ap (λ (w : List Fields × JsonStateStore). exists (λ e. text_eq e.key k) (load_all show w.0))
          (load_idem s)
      ∙ sym (ap (λ (w : Bool × JsonStateStore). w.0) one)

  pub recognised_written :
      (written : Bool) (d : Delivery) (s : JsonStateStore)
      → IsDelivery d
      → (record_webhook_event show written d.now
          (some d.key)
          d.transmission_id
          d.order_id
          d.status
          d.event_type
          s).0
        ≡ true
      → (has_processed_webhook show
          (some d.key)
          (record_webhook_event show written d.now
            (some d.key)
            d.transmission_id
            d.order_id
            d.status
            d.event_type
            s).1).0
        ≡ true
  unfolding record_webhook_event store_events load_events store
  recognised_written true d s h ok = recognised_after show d [] s h tt (omega arith)
  recognised_written false d s h ok =
      let e : some_text d.key ≡ some d.key = some_text_full d.key h.1 in
      absurd (ground (arith, e, ok))

  -- What has been recorded was recorded in a file that could be written.
  pub written_delivery :
      (written : Bool) (d : Delivery) (s : JsonStateStore)
      → IsDelivery d
      → (record_webhook_event show written d.now
          (some d.key)
          d.transmission_id
          d.order_id
          d.status
          d.event_type
          s).0
        ≡ true
      → (record_webhook_event show written d.now
          (some d.key)
          d.transmission_id
          d.order_id
          d.status
          d.event_type
          s).1
        ≡ record_delivery show d s
  unfolding record_webhook_event store_events load_events store
  written_delivery true d s h ok = refl
  written_delivery false d s h ok =
      let e : some_text d.key ≡ some d.key = some_text_full d.key h.1 in
      absurd (ground (arith, e, ok))
