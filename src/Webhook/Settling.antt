-- ===== src/Webhook/Settling.antt =====
-- What `handle_toss_webhook` does with a payment that is done, when every file can be written.
use ko_finance.Common.{
  ℕ, Text, codes, text_eq, nonempty, Json, Option, none, some, or_default, or_else, Bool, true,
  false, [], ◌∷◌, ◌≡◌, refl, ap, ◌∙◌, arith, Bool-cases, Option-cases, inl, inr,
}
use ko_finance.JsonStore.{JsonStateStore, load, store}
use ko_finance.Payments.{
  extract_tier_from_order_id, load_events, store_events, has_processed_webhook,
  record_webhook_event,
}
use ko_finance.Payments.Contexts.{
  OrderContext, get_order_context, load_contexts, store_contexts, pop_order_context, take_out,
}
use ko_finance.Payments.Orders.{TossOrderRecord}
use ko_finance.Payments.OrderStatus.{update_order_status}
use ko_finance.PlanSettings.Exec.{Outcome, returned, raised, PlanState}
use ko_finance.PlanSettings.Context.{PlanContext}
use ko_finance.Webhook.{
  extract_org_id, parse_period_end, metadata_in, Outside, Request, Moment, Books, Billing, Answer,
  accepted,
}
use ko_finance.Webhook.Handler.{
  upgrade_result, sync_entitlement_subscription, payment_done, settle, known_of, record_event,
  recorded, pop_context, finish, process, handle_toss_webhook,
}
use ko_finance.Webhook.Payment.{
  Payment, payment_event, Effect, id_of, plan_result, order_result, status_metadata, order_defaults,
}
use ko_finance.Webhook.Duplicates.{Delivers, handle_lem, handle_first}

plan_result_returned :
    (b : Books) (w : Outcome PlanContext × PlanState) (c : PlanContext)
    → w.0 ≡ returned c
    → plan_result b w ≡ (true, record b { plan = w.1 })
plan_result_returned b (returned d, s) c h = refl
plan_result_returned b (raised e, s) c h = absurd (ground (arith, h))

order_result-some :
    (b : Books) (w : Option (Option TossOrderRecord) × JsonStateStore) (r : Option TossOrderRecord)
    → w.0 ≡ some r
    → order_result b w ≡ (true, record b { orders = w.1 })
order_result-some b (some x, s) r h = refl
order_result-some b (none, s) r h = absurd (ground (arith, h))

-- With a file that can be written a delivery is recorded and a context popped.
pub record-written :
    (show : Json → Text) (now : Text) (key a b c d : Option Text) (s : JsonStateStore)
    → (record_webhook_event show true now key a b c d s).0 ≡ true
unfolding record_webhook_event load_events store_events load store
record-written show now none a b c d s = refl
record-written show now (some []) a b c d s = refl
record-written show now (some (x ∷ k)) a b c d s = refl

pop-written :
    (show : Json → Text) (parse : Text → Option ℕ) (now : ℕ) (id : Text) (s : JsonStateStore)
    → (pop_order_context show parse true now id s).1.0 ≡ true
unfolding pop_order_context load_contexts store_contexts load store
pop-written show parse now id s = elim (Bool-cases (nonempty id)) [
  | inr e ↦ rw (pop_order_context, e) refl
  | inl e ↦ elim (Option-cases (take_out id (load_contexts show s).0).0) [
    | inl f ↦ rw (pop_order_context, e, f) refl
    | inr (c, f) ↦ rw (pop_order_context, e, f) refl
  ]
]

-- A moment at which every file can be written.
abbrev pub writing : ℕ → Text → Bool → Moment
writing now now_text up = record {
  now = now;
  now_text = now_text;
  plan_written = true;
  orders_written = true;
  events_written = true;
  contexts_written = true;
  database_up = up;
}

module _ (o : Outside) (at_now : ℕ) (now_text : Text) (up : Bool) where
  abbrev at : Moment
  at = writing at_now now_text up

  -- The update of the order of a paid payment.
  abbrev pub marked :
      Payment → Text → JsonStateStore → Option (Option TossOrderRecord) × JsonStateStore
  marked p tier orders =
      update_order_status o.lib.show true now_text (id_of p) (codes "paid")
        (some (status_metadata p)) (some (order_defaults p tier)) orders

  -- The books after a paid payment, and whether the subscription's period could be read.
  abbrev pub paid_books : Payment → Text → Books → PlanState → Effect
  paid_books p tier b plan =
      sync_entitlement_subscription o at p tier none none
        (record b { plan = plan; orders = (marked p tier b.orders).1 })

  pub payment_done_lem :
      (p : Payment) (tier : Text) (b : Books) (c : PlanContext) (order : Option TossOrderRecord)
      → nonempty (id_of p) ≡ true
      → (upgrade_result o at p tier b).0 ≡ returned c
      → (marked p tier b.orders).0 ≡ some order
      → payment_done o at p tier b ≡ paid_books p tier b (upgrade_result o at p tier b).1
  unfolding payment_done
  payment_done_lem p tier b c order named upgraded found =
      rw (payment_done, plan_result_returned b (upgrade_result o at p tier b) c upgraded, named)
        (rw
          (order_result-some (record b { plan = (upgrade_result o at p tier b).1 })
            (marked p tier b.orders) order found)
          refl)

  settle_lem :
      (p : Payment) (tier : Text) (context : Option OrderContext) (b : Books)
      → or_default p.status [] ≡ codes "DONE"
      → extract_tier_from_order_id p.order_id ≡ some tier
      → settle o at p (known_of o at p context) b ≡ (true, payment_done o at p tier b)
  unfolding settle text_eq
  settle_lem p tier context b status named = rw (settle, status, named) refl

  finish_lem :
      (r : Request) (p : Payment) (s : Billing) (b : Books)
      → ((finish o at r p s (true, (true, b))).0 ≡ accepted)
        × ((finish o at r p s (true, (true, b))).1.books ≡ b)
  finish_lem r p s b = at_end (record_event o at r p s.events) (
      record-written o.lib.show now_text p.key r.transmission_id p.order_id p.status
        (some payment_event) s.events)
    where
      popped :
          (t : Billing)
          → ((pop_context o at true p t).0 ≡ accepted)
            × ((pop_context o at true p t).1.books ≡ t.books)
      popped t = elim (Bool-cases (nonempty (id_of p))) [
        | inl e ↦ rw (e, pop-written o.lib.show o.from_iso at_now (id_of p) t.contexts) (refl, refl)
        | inr e ↦ rw e (refl, refl)
      ]

      at_end :
          (w : Bool × JsonStateStore)
          → w.0 ≡ true
          → ((recorded o at true p (record s { books = b }) w).0 ≡ accepted)
            × ((recorded o at true p (record s { books = b }) w).1.books ≡ b)
      at_end (true, events) h = popped (record s { books = b; events = events })
      at_end (false, events) h = absurd (ground (arith, h))

  pub sync_keeps :
      (p : Payment) (tier : Text) (period : Option ℕ) (b : Books)
      → parse_period_end o (metadata_in p.body) ≡ some period
      → let w = sync_entitlement_subscription o at p tier none none b in
        (w ≡ (true, w.1)) × (w.1.plan ≡ b.plan) × (w.1.orders ≡ b.orders)
  unfolding sync_entitlement_subscription
  sync_keeps p tier period b read = elim (Bool-cases (nonempty (or_default p.status []))) [
    | inr e ↦ rw (sync_entitlement_subscription, e) (refl, refl, refl)
    | inl e ↦ elim (Option-cases (or_else (extract_org_id o (metadata_in p.body)) none)) [
      | inl f ↦ rw (sync_entitlement_subscription, e, f) (refl, refl, refl)
      | inr (org, f) ↦ rw (sync_entitlement_subscription, e, f, read) (refl, refl, refl)
    ]
  ]

  pub handled_lem :
      (r : Request) (p : Payment) (tier : Text) (s : Billing) (b : Books)
      → Delivers o r p
      → (has_processed_webhook o.lib.show p.key s.events).0 ≡ false
      → or_default p.status [] ≡ codes "DONE"
      → extract_tier_from_order_id p.order_id ≡ some tier
      → payment_done o at p tier s.books ≡ (true, b)
      → ((handle_toss_webhook o at r s).0 ≡ accepted) × ((handle_toss_webhook o at r s).1.books ≡ b)
  unfolding process
  handled_lem r p tier s b delivered new status named settled =
      let events = (has_processed_webhook o.lib.show p.key s.events).1 in
      let (context, contexts) = get_order_context o.lib.show (id_of p) s.contexts in
      let s' : Billing = record { books = s.books; contexts = contexts; events = events } in
      let eq : handle_toss_webhook o at r s ≡ finish o at r p s' (true, (true, b)) =
        handle_lem o at r p s delivered
        ∙ handle_first o at r p s new
        ∙ ap (finish o at r p s') (
            settle_lem p tier context s.books status named
            ∙ ap (λ (e : Effect). (true, e)) settled) in
      let (answer, books) = finish_lem r p s' b in
      (
        ap (λ (w : Answer × Billing). w.0) eq ∙ answer,
        ap (λ (w : Answer × Billing). w.1.books) eq ∙ books,
      )
