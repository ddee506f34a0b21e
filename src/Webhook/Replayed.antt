-- ===== src/Webhook/Replayed.antt =====
-- A replay of a paid order's event.
use ko_finance.Common.{
  ℕ, field, arith, Text, codes, text_eq, nonempty, Json, Fields, Option, some, or_default, Bool,
  true, List, [], ◌++◌, ◌≡◌, refl, ap, ◌∙◌,
}
use ko_finance.Payments.{extract_tier_from_order_id, record_webhook_event}
use ko_finance.PlanSettings.{PersistedPlanSettings}
use ko_finance.PlanSettings.Exec.{Outcome, returned, raised, PlanState}
use ko_finance.PlanSettings.Context.{PlanContext}
use ko_finance.PlanSettings.Changes.{apply_checkout_upgrade}
use ko_finance.PlanSettings.Disk.{base_entitlements_for_tier}
use ko_finance.PlanSettings.Readback.{Reads, IsTier, Storable}
use ko_finance.PlanSettings.Held.{Holds}
use ko_finance.PlanSettings.Checkout.{Upgraded, apply_checkout_upgrade_lem}
use ko_finance.Webhook.{Outside, Moment, Billing}
use ko_finance.Webhook.Payment.{payment_event}
use ko_finance.Webhook.Settling.{record-written, writing}
use ko_finance.Webhook.Replay.{
  Replay, Replayed, TossWebhookEventLog, after_change, apply_replay, load_webhook_record,
  read_replay, replay_key, replay_record, replay_toss_webhook_event, replay_upgrade, upgraded,
}

-- A log whose last row of the transmission is a payment event that is done, of an order of the tier.
abbrev pub PaidEvent : Text → List TossWebhookEventLog → Text → Replay → Type 0
PaidEvent id log tier e =
    (nonempty id ≡ true)
    × ((r : TossWebhookEventLog) × (key : Text) × (v : Json) × (fs : Fields) × (load_webhook_record
            id log
          ≡ some r)
        × (r.payload ≡ some (field key v fs))
        × (read_replay r (field key v fs) ≡ some e))
    × (or_default e.event_type [] ≡ payment_event)
    × (e.status ≡ codes "DONE")
    × (extract_tier_from_order_id e.order_id ≡ some tier)

module _ (o : Outside) (at_now : ℕ) (now_text : Text) (up : Bool) (id : Text) where
  abbrev at : Moment
  at = writing at_now now_text up

  replayed_lem :
      (log : List TossWebhookEventLog) (tier : Text) (e : Replay) (s : Billing)
      → PaidEvent id log tier e
      → replay_toss_webhook_event o at id log s ≡ replay_upgrade o at id e tier s
  unfolding replay_toss_webhook_event apply_replay text_eq
  replayed_lem log tier e s (named, (r, key, v, fs, found, payload, read), kind, done, order) =
      let row = λ (q : Option Fields). replay_record o at id r q s in
      let is_done : text_eq e.status (codes "DONE") ≡ true =
        ap (λ t. text_eq t (codes "DONE")) done in
      let full : nonempty e.status ≡ true = ap nonempty done in
      rw (replay_toss_webhook_event, named)
        (rw found (
          ap row payload
          ∙ rw (replay_record, read)
              (rw (kind, full) (rw (apply_replay, is_done) (rw order refl)))))

  upgrade_result : Text → Replay → Billing → Outcome PlanContext × PlanState
  upgrade_result tier e s =
      apply_checkout_upgrade o.lib o.env at_now true tier (some (codes "toss-webhook-replay"))
        (some (codes "Toss 결제 수동 재처리 (" ++ (or_default e.order_id (codes "None") ++ codes ")")))
        s.books.plan

  -- The stores after a replay that has upgraded the plan.
  abbrev replayed : Replay → PlanState → Billing → Billing
  replayed e plan s = record s {
    books = record s.books { plan = plan };
    events =
        (record_webhook_event o.lib.show true now_text (some (replay_key o at id e)) (some id)
          e.order_id (some e.status) e.event_type s.events).1;
  }

  after_change_lem :
      (e : Replay) (answer : Replayed) (s : Billing) (w : Outcome PlanContext × PlanState)
      (c : PlanContext)
      → w.0 ≡ returned c
      → after_change o at id e answer s w ≡ (answer, replayed e w.1 s)
  after_change_lem e answer s (returned d, plan) c h =
      rw
        (record-written o.lib.show now_text (some (replay_key o at id e)) (some id) e.order_id
          (some e.status) e.event_type s.events)
        refl
  after_change_lem e answer s (raised x, plan) c h = absurd (ground (arith, h))

  -- A replay of the event of a paid order upgrades the plan settings as the webhook does, and it changes
  -- nothing else but the list of processed webhooks: the orders, the order contexts and the
  -- subscriptions stay as they are, so the order is not marked as paid. The settings are in memory and
  -- read back as they are written, the plan config is ready, the files can be written, and the tier of
  -- the order is one that is read back.
  pub replay_toss_webhook_event-Upgraded :
      (reads : Reads o.lib) (log : List TossWebhookEventLog) (tier : Text) (e : Replay)
      (st : PersistedPlanSettings) (s : Billing)
      → PaidEvent id log tier e
      → IsTier o.lib tier
      → Storable o.lib st
      → Holds st s.books.plan
      → let w = replay_toss_webhook_event o at id log s in
        (base : List Text) × (new : PersistedPlanSettings) × (w.0
          ≡ upgraded e.status e.order_id tier)
        × ((base_entitlements_for_tier o.lib tier s.books.plan).0 ≡ returned base)
        × (w.1.books.plan.cache ≡ some new)
        × Upgraded tier base st new
        × (w.1.books.orders ≡ s.books.orders)
        × (w.1.books.service ≡ s.books.service)
        × (w.1.contexts ≡ s.contexts)
  unfolding upgrade_result
  replay_toss_webhook_event-Upgraded reads log tier e st s paid valid storable held =
      let (context, base, new, answer, granted, memory, better, _, _) =
        apply_checkout_upgrade_lem o.lib o.env reads at_now tier
          (some (codes "toss-webhook-replay"))
          (some (codes "Toss 결제 수동 재처리 (" ++ (or_default e.order_id (codes "None") ++ codes ")")))
          st s.books.plan valid storable held in
      let eq =
        replayed_lem log tier e s paid
        ∙ after_change_lem e (upgraded e.status e.order_id tier) s (upgrade_result tier e s) context
            answer in
      (
        base,
        new,
        ap (λ (w : Replayed × Billing). w.0) eq,
        granted,
        ap (λ (w : Replayed × Billing). w.1.books.plan.cache) eq ∙ memory,
        better,
        ap (λ (w : Replayed × Billing). w.1.books.orders) eq,
        ap (λ (w : Replayed × Billing). w.1.books.service) eq,
        ap (λ (w : Replayed × Billing). w.1.contexts) eq,
      )
