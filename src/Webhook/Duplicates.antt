-- ===== src/Webhook/Duplicates.antt =====
-- A webhook that is delivered twice in a row.
use ko_finance.Common.{
  nonempty, Json, object, Fields, field_of, codes, Option, some, or_default, Bool, true, false,
  ◌&&◌, [], ◌≡◌, refl, ap, ◌∙◌, arith, Bool-cases, inl, inr,
}
use ko_finance.JsonStore.{JsonStateStore}
use ko_finance.Payments.{has_processed_webhook}
use ko_finance.Payments.Contexts.{get_order_context}
use ko_finance.Webhook.{
  Outside, Request, Moment, Billing, Answer, accepted, verify_toss_webhook_signature,
}
use ko_finance.Webhook.Handler.{
  settle, known_of, record_event, recorded, pop_context, finish, process, handle_payment,
  handle_event, handle_toss_webhook,
}
use ko_finance.Webhook.Payment.{Payment, Effect, id_of, payment_event, read_payment, is_text}

module _ (o : Outside) (at : Moment) where
  -- An accepted delivery has been recorded.
  abbrev pub Recorded : Request → Payment → JsonStateStore → Answer × Billing → Type 0
  Recorded r p events result =
      ((record_event o at r p events).0 ≡ true)
      × (result.1.events ≡ (record_event o at r p events).1)

  finish-Recorded :
      (r : Request) (p : Payment) (s : Billing) (x : Bool × Effect)
      → (finish o at r p s x).0 ≡ accepted
      → Recorded r p s.events (finish o at r p s x)
  finish-Recorded r p s (pops, (false, b)) h = absurd (ground (arith, h))
  finish-Recorded r p s (pops, (true, b)) h = at_end (record_event o at r p s.events) h
    where
      popped :
          (events : JsonStateStore)
          → (pop_context o at pops p (record s { books = b; events = events })).1.events ≡ events
      popped events = elim (Bool-cases (pops && nonempty (or_default p.order_id []))) [
        | inl e ↦ rw e refl
        | inr e ↦ rw e refl
      ]

      at_end :
          (w : Bool × JsonStateStore)
          → (recorded o at pops p (record s { books = b }) w).0 ≡ accepted
          → (w.0 ≡ true) × ((recorded o at pops p (record s { books = b }) w).1.events ≡ w.1)
      at_end (true, events) k = (refl, popped events)
      at_end (false, events) k = absurd (ground (arith, k))

  pub process-Recorded :
      (r : Request) (p : Payment) (s : Billing)
      → (process o at r p s).0 ≡ accepted
      → Recorded r p s.events (process o at r p s)
  unfolding process
  process-Recorded r p s h =
      let (context, contexts) = get_order_context o.lib.show (id_of p) s.contexts in
      finish-Recorded r p (record s { contexts = contexts })
        (settle o at p (known_of o at p context) s.books) h

  pub handle_duplicate :
      (r : Request) (p : Payment) (s : Billing)
      → (has_processed_webhook o.lib.show p.key s.events).0 ≡ true
      → handle_payment o at r p s
        ≡ (accepted, record s { events = (has_processed_webhook o.lib.show p.key s.events).1 })
  unfolding handle_payment
  handle_duplicate r p s e = rw (handle_payment, e) refl

  pub handle_first :
      (r : Request) (p : Payment) (s : Billing)
      → (has_processed_webhook o.lib.show p.key s.events).0 ≡ false
      → handle_payment o at r p s
        ≡ process o at r p
            (record s { events = (has_processed_webhook o.lib.show p.key s.events).1 })
  unfolding handle_payment
  handle_first r p s e = rw (handle_payment, e) refl

-- A signed delivery of a payment event, as the handler reads it.
abbrev pub Delivers : Outside → Request → Payment → Type 0
Delivers o r p =
    (event : Fields) × (verify_toss_webhook_signature o r ≡ some true)
    × (r.event ≡ some (object event))
    × (is_text (field_of (codes "eventType") event) payment_event ≡ true)
    × (read_payment r event ≡ some p)

module _ (o : Outside) where
  handle_object :
      (at : Moment) (r : Request) (p : Payment) (event : Fields) (s : Billing)
      → is_text (field_of (codes "eventType") event) payment_event ≡ true
      → read_payment r event ≡ some p
      → handle_event o at r (some (object event)) s ≡ handle_payment o at r p s
  handle_object at r p event s kind read = rw (kind, read) refl

  signed-headers :
      (r : Request)
      → verify_toss_webhook_signature o r ≡ some true
      → (nonempty r.transmission_time && nonempty r.signature) ≡ true
  unfolding verify_toss_webhook_signature
  signed-headers r h = elim (Bool-cases (nonempty r.transmission_time && nonempty r.signature)) [
    | inl e ↦ e
    | inr e ↦
        let no : verify_toss_webhook_signature o r ≡ some false =
          rw (verify_toss_webhook_signature, e) refl in
        absurd (ground (arith, no, h))
  ]

  -- A signed payment event reaches `handle_payment`.
  pub handle_lem :
      (at : Moment) (r : Request) (p : Payment) (s : Billing)
      → Delivers o r p
      → handle_toss_webhook o at r s ≡ handle_payment o at r p s
  unfolding handle_toss_webhook
  handle_lem at r p s (event, signed, body, kind, read) =
      let headers : (nonempty r.transmission_time && nonempty r.signature) ≡ true =
        signed-headers r signed in
      rw (handle_toss_webhook, headers, signed)
        (ap (λ (e : Option Json). handle_event o at r e s) body
          ∙ handle_object at r p event s kind read)
