-- ===== src/Webhook/Later.antt =====
-- A webhook that is delivered again after others.
use ko_finance.Common.{
  ◌<◌, length, All, Text, nonempty, strip, Option, some, true, false, List, ◌≡◌, sym, ap, ◌∙◌,
}
use mathlib.Core.Path.{subst}
use ko_finance.JsonStore.{JsonStateStore}
use ko_finance.Payments.{has_processed_webhook, record_webhook_event}
use ko_finance.Payments.Dedupe.{
  Delivery, IsDelivery, record_delivery, record_deliveries, recognised_after,
}
use ko_finance.Webhook.{Outside, Request, Moment, Billing, Answer, accepted}
use ko_finance.Webhook.Payment.{Payment, payment_event}
use ko_finance.Webhook.Handler.{handle_payment, handle_toss_webhook}
use ko_finance.Webhook.Recognised.{written_delivery}
use ko_finance.Webhook.Duplicates.{
  process-Recorded, handle_first, handle_duplicate, handle_lem, Delivers,
}

-- The recording of a payment under the key `k`.
abbrev delivery_of : Moment → Request → Payment → Text → Delivery
delivery_of at r p k = record {
  key = k;
  transmission_id = r.transmission_id;
  order_id = p.order_id;
  status = p.status;
  event_type = some payment_event;
  now = at.now_text;
}

module _ (o : Outside) where
  -- The list of webhooks after the first delivery of a payment that was accepted.
  accepted_events :
      (at : Moment) (r : Request) (p : Payment) (k : Text) (s : Billing)
      → p.key ≡ some k
      → IsDelivery (delivery_of at r p k)
      → (has_processed_webhook o.lib.show p.key s.events).0 ≡ false
      → (handle_payment o at r p s).0 ≡ accepted
      → (handle_payment o at r p s).1.events
        ≡ record_delivery o.lib.show
            (delivery_of at r p k)
            (has_processed_webhook o.lib.show p.key s.events).1
  accepted_events at r p k s known valid new done =
      let show = o.lib.show in
      let events = (has_processed_webhook show p.key s.events).1 in
      let eq = handle_first o at r p s new in
      let (written, left) =
        process-Recorded o at r p (record s { events = events })
          (sym (ap (λ (w : Answer × Billing). w.0) eq) ∙ done) in
      let recorded_at = λ (q : Option Text).
        record_webhook_event show at.events_written at.now_text q r.transmission_id p.order_id
          p.status (some payment_event) events in
      ap (λ (w : Answer × Billing). w.1.events) eq
      ∙ left
      ∙ ap (λ (q : Option Text). (recorded_at q).1) known
      ∙ written_delivery show at.events_written (delivery_of at r p k) events valid
          (subst (λ (q : Option Text). (recorded_at q).0 ≡ true) known written)

  -- A webhook that is delivered again after others changes nothing: when the first delivery of a
  -- payment has been accepted, and up to 199 further webhooks have been recorded since, a signed event
  -- with the same key is accepted at any instant, and the plan, the orders, the subscriptions and the
  -- order contexts stay as they are then, whatever they are. The keys are not empty and have no white
  -- space around them, the texts of the instants are not blank, and the file of the further webhooks
  -- can be written.
  pub delivered_later :
      (at at' : Moment) (r r' : Request) (p p' : Payment) (k : Text) (ds : List Delivery)
      (s later : Billing)
      → Delivers o r p
      → Delivers o r' p'
      → p.key ≡ some k
      → p'.key ≡ some k
      → strip k ≡ k
      → nonempty k ≡ true
      → nonempty (strip at.now_text) ≡ true
      → (has_processed_webhook o.lib.show p.key s.events).0 ≡ false
      → (handle_toss_webhook o at r s).0 ≡ accepted
      → All IsDelivery ds
      → length ds < 200
      → later.events ≡ record_deliveries o.lib.show ds (handle_toss_webhook o at r s).1.events
      → ((handle_toss_webhook o at' r' later).0 ≡ accepted)
        × ((handle_toss_webhook o at' r' later).1.books ≡ later.books)
        × ((handle_toss_webhook o at' r' later).1.contexts ≡ later.contexts)
  delivered_later at at' r r' p p' k ds s later first second known known' stripped full dated new
        done valid few since =
      let show = o.lib.show in
      let d = delivery_of at r p k in
      let one = handle_lem o at r p s first in
      let events =
        ap (λ (w : Answer × Billing). w.1.events) one
        ∙ accepted_events at r p k s known (stripped, full, dated) new
            (sym (ap (λ (w : Answer × Billing). w.0) one) ∙ done) in
      let seen : (has_processed_webhook show p'.key later.events).0 ≡ true =
        ap (λ (q : Option Text). (has_processed_webhook show q later.events).0) known'
        ∙ ap (λ (x : JsonStateStore). (has_processed_webhook show (some k) x).0)
            (since ∙ ap (record_deliveries show ds) events)
        ∙ recognised_after show d ds (has_processed_webhook show p.key s.events).1
            (stripped, full, dated) valid few in
      let two = handle_lem o at' r' p' later second ∙ handle_duplicate o at' r' p' later seen in
      (
        ap (λ (w : Answer × Billing). w.0) two,
        ap (λ (w : Answer × Billing). w.1.books) two,
        ap (λ (w : Answer × Billing). w.1.contexts) two,
      )
