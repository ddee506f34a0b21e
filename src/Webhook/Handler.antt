-- ===== src/Webhook/Handler.antt =====
-- `handle_toss_webhook` of web/routers/payments.py.
use ko_finance.Webhook.Payment.{
  Effect, Known, Payment, canceled_statuses, context_metadata, id_of, is_text, order_defaults,
  order_result, org_in, payload_metadata, payment_event, plan_result, read_payment, slug_in,
  status_metadata, then_on, tier_or_free,
}
use ko_finance.Common.{
  ℕ, Text, codes, text_eq, nonempty, lower, member, Json, object, Fields, field_of, Option, none,
  some, or_default, or_else, Bool, true, false, ◌&&◌, [], ◌++◌, if◌then◌else◌,
}
use ko_finance.JsonStore.{JsonStateStore}
use ko_finance.Entitlement.Billing.{BillingEvent, sync_subscription_from_billing}
use ko_finance.Payments.{extract_tier_from_order_id, has_processed_webhook, record_webhook_event}
use ko_finance.Payments.Contexts.{OrderContext, get_order_context, pop_order_context}
use ko_finance.Payments.OrderStatus.{update_order_status}
use ko_finance.PlanSettings.Exec.{Outcome, PlanState}
use ko_finance.PlanSettings.Context.{PlanContext}
use ko_finance.PlanSettings.Changes.{apply_checkout_upgrade, clear_checkout_requested}
use ko_finance.Webhook.{
  Outside, Request, Moment, Books, Billing, Answer, accepted, refused,
  verify_toss_webhook_signature, metadata_in, extract_org_id, parse_period_end,
}

module _ (o : Outside) (at : Moment) where
  abbrev pub known_of : Payment → Option OrderContext → Known
  known_of p context = record {
    tier = or_else (extract_tier_from_order_id p.order_id) (slug_in context);
    org = elim (org_in context) [ none ↦ none | some t ↦ o.parse_uuid t ];
    context = context;
  }

  abbrev pub upgrade_result : Payment → Text → Books → Outcome PlanContext × PlanState
  upgrade_result p tier b =
      apply_checkout_upgrade o.lib o.env at.now at.plan_written tier (some (codes "toss-webhook"))
        (some (codes "Toss 결제 완료 (" ++ (or_default p.order_id (codes "None") ++ codes ")"))) b.plan

  abbrev pub upgrade_plan : Payment → Text → Books → Effect
  upgrade_plan p tier b = plan_result b (upgrade_result p tier b)

  abbrev pub clear_plan : Payment → Books → Effect
  clear_plan p b = plan_result b (
      clear_checkout_requested o.lib o.env at.now at.plan_written (some (codes "toss-webhook"))
        (some (codes "Toss 결제 취소 (" ++ (id_of p ++ codes ")"))) b.plan)

  -- `if order_id: toss_order_store.update_order_status(…)`
  abbrev pub mark_order : Text → Payment → Text → Books → Effect
  mark_order status p tier b =
      if nonempty (id_of p)
      then order_result b (
          update_order_status o.lib.show at.orders_written at.now_text (id_of p) status
            (some (status_metadata p)) (some (order_defaults p tier)) b.orders)
      else (true, b)

  abbrev pub billing_event : Payment → Text → Text → Option ℕ → Option Fields → BillingEvent
  billing_event p tier status period fallback = record {
    plan_slug = tier;
    status = lower status;
    current_period_end = period;
    metadata = some (object (payload_metadata p fallback));
  }

  -- `_sync_entitlement_subscription`, which catches what the service raises.
  unfoldable pub sync_entitlement_subscription :
      Payment → Text → Option ℕ → Option Fields → Books → Effect
  sync_entitlement_subscription p tier fallback_org fallback b =
      let status = or_default p.status [] in
      if nonempty status
      then elim (or_else (extract_org_id o (metadata_in p.body)) fallback_org) [
        | none ↦ (true, b)
        | some org ↦ elim (parse_period_end o (metadata_in p.body)) [
          | none ↦ (false, b)
          | some period ↦ (
            true,
            record b {
              service =
                  (sync_subscription_from_billing o.config at.database_up at.now org
                    (billing_event p tier status period fallback) b.service).1;
            },
          )
        ]
      ]
      else (true, b)

  -- A payment that is done, with a tier. The organization of the order context is not passed on.
  unfoldable pub payment_done : Payment → Text → Books → Effect
  payment_done p tier b = then_on (upgrade_plan p tier b) λ b.
      then_on (mark_order (codes "paid") p tier b)
        λ b. sync_entitlement_subscription p tier none none b

  abbrev pub sync_if_tier : Payment → Known → Books → Effect
  sync_if_tier p k b = elim k.tier [
    | none ↦ (true, b)
    | some tier ↦ sync_entitlement_subscription p tier k.org (context_metadata k.context) b
  ]

  -- A payment that is canceled, aborted or expired.
  unfoldable pub payment_canceled : Payment → Known → Books → Effect
  payment_canceled p k b =
      then_on (if nonempty (id_of p) then clear_plan p b else (true, b))
        λ b. then_on (mark_order (codes "canceled") p (tier_or_free k) b) λ b. sync_if_tier p k b

  -- The branches by status. The first flag says whether the order context is popped afterwards: it is
  -- not where the tier of a paid order is unknown.
  unfoldable pub settle : Payment → Known → Books → Bool × Effect
  settle p k b =
      let status = or_default p.status [] in
      if text_eq status (codes "DONE")
      then elim k.tier [ none ↦ (false, (true, b)) | some tier ↦ (true, payment_done p tier b) ]
      else (if member status canceled_statuses
          then (true, payment_canceled p k b)
          else (if text_eq status (codes "FAILED")
              then (true, mark_order (codes "failed") p (tier_or_free k) b)
              else (true, (true, b))))

  abbrev pub record_event : Request → Payment → JsonStateStore → Bool × JsonStateStore
  record_event r p events =
      record_webhook_event o.lib.show at.events_written at.now_text p.key r.transmission_id
        p.order_id p.status (some payment_event) events

  -- `if order_id: pop_order_context(order_id)`
  abbrev pub pop_context : Bool → Payment → Billing → Answer × Billing
  pop_context pops p s =
      let popped =
        pop_order_context o.lib.show o.from_iso at.contexts_written at.now (id_of p) s.contexts in
      if pops && nonempty (id_of p)
      then (if popped.1.0 then accepted else refused 500, record s { contexts = popped.1.1 })
      else (accepted, s)

  abbrev pub recorded : Bool → Payment → Billing → Bool × JsonStateStore → Answer × Billing
  recorded pops p s (true, events) = pop_context pops p (record s { events = events })
  recorded pops p s (false, events) = (refused 500, record s { events = events })

  -- What follows the branches.
  abbrev pub finish : Request → Payment → Billing → Bool × Effect → Answer × Billing
  finish r p s (pops, (true, b)) =
      recorded pops p (record s { books = b }) (record_event r p s.events)
  finish r p s (pops, (false, b)) = (refused 500, record s { books = b })

  -- A payment that has not been processed before.
  unfoldable pub process : Request → Payment → Billing → Answer × Billing
  process r p s =
      let (context, contexts) = get_order_context o.lib.show (id_of p) s.contexts in
      finish r p (record s { contexts = contexts }) (settle p (known_of p context) s.books)

  unfoldable pub handle_payment : Request → Payment → Billing → Answer × Billing
  handle_payment r p s =
      let (duplicate, events) = has_processed_webhook o.lib.show p.key s.events in
      if duplicate
      then (accepted, record s { events = events })
      else process r p (record s { events = events })

  abbrev pub handle_event : Request → Option Json → Billing → Answer × Billing
  handle_event r none s = (refused 400, s)
  handle_event r (some (object event)) s =
      if is_text (field_of (codes "eventType") event) payment_event
      then elim (read_payment r event) [ none ↦ (refused 500, s) | some p ↦ handle_payment r p s ]
      else (accepted, s)
  handle_event r (some v) s = (refused 500, s)

  -- `handle_toss_webhook`
  unfoldable pub handle_toss_webhook : Request → Billing → Answer × Billing
  handle_toss_webhook r s =
      if nonempty r.transmission_time && nonempty r.signature
      then elim (verify_toss_webhook_signature o r) [
        | none ↦ (refused 503, s)
        | some valid ↦ if valid then handle_event r r.event s else (refused 401, s)
      ]
      else (refused 400, s)
