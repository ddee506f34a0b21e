-- ===== src/Webhook/Paid.antt =====
-- A payment that is done upgrades the plan and marks its order as paid.
use ko_finance.Common.{
  ℕ, Text, codes, nonempty, Option, some, or_default, Bool, true, false, List, [], ◌++◌, ◌≡◌, ap,
  ◌∙◌,
}
use ko_finance.JsonStore.{JsonStateStore}
use ko_finance.Payments.{extract_tier_from_order_id, has_processed_webhook}
use ko_finance.Payments.Orders.{
  Checkout, TossOrderRecord, load_orders, pending_order, record_checkout, get_order,
}
use ko_finance.Payments.OrderStatus.{with_status, merge_fields}
use ko_finance.Payments.OrderItems.{Clean}
use ko_finance.Payments.OrderUse.{order_of, update_order_status_lem}
use ko_finance.PlanSettings.{PersistedPlanSettings}
use ko_finance.PlanSettings.Exec.{returned, PlanState}
use ko_finance.PlanSettings.Disk.{base_entitlements_for_tier}
use ko_finance.PlanSettings.Readback.{Reads, IsTier, Storable}
use ko_finance.PlanSettings.Held.{Holds}
use ko_finance.PlanSettings.Checkout.{Upgraded, apply_checkout_upgrade_lem}
use ko_finance.Webhook.{parse_period_end, metadata_in, Outside, Request, Books, Billing, accepted}
use ko_finance.Webhook.Handler.{upgrade_result, handle_toss_webhook}
use ko_finance.Webhook.Payment.{Payment, id_of, status_metadata, order_defaults}
use ko_finance.Webhook.Duplicates.{Delivers}
use ko_finance.Webhook.Settling.{
  writing, marked, paid_books, payment_done_lem, sync_keeps, handled_lem,
}

module _ (o : Outside) (at_now : ℕ) (now_text : Text) (up : Bool) where
  -- What a webhook leaves of the payment of `c` under the settings `st`.
  abbrev pub Settled :
      Payment → Text → PersistedPlanSettings → Text → Text → Checkout → Books → PlanState → Type 0
  Settled p tier st placed later c b plan =
      ((get_order o.lib.show later c.order_id b.orders).0
        ≡ some (
            some (
              order_of placed now_text (codes "paid") (merge_fields c.metadata (status_metadata p))
                c)))
      × ((base : List Text) × (new : PersistedPlanSettings) × ((base_entitlements_for_tier o.lib
              tier plan).0
            ≡ returned base)
          × (b.plan.cache ≡ some new)
          × Upgraded tier base st new)

  -- A paid order is settled: the signed event of a payment that is done, delivered for the first time
  -- with an order id that names the tier, is accepted; the plan settings have the paid tier and the
  -- entitlements of the tier and of before, without the checkout flag; and the order, whose checkout was
  -- the last to be recorded, is found as paid. The end of the period in the metadata, if there is one,
  -- raises no ValueError. The settings are in memory and read back as they are
  -- written, as are the order and the dates, the plan config is ready, and the files can be written.
  pub paid_order-Settled :
      (reads : Reads o.lib) (r : Request) (p : Payment) (tier placed later : Text)
      (st : PersistedPlanSettings) (c : Checkout) (before : JsonStateStore)
      (records : List TossOrderRecord) (period : Option ℕ) (s : Billing)
      → Delivers o r p
      → (has_processed_webhook o.lib.show p.key s.events).0 ≡ false
      → or_default p.status [] ≡ codes "DONE"
      → parse_period_end o (metadata_in p.body) ≡ some period
      → extract_tier_from_order_id p.order_id ≡ some tier
      → id_of p ≡ c.order_id
      → IsTier o.lib tier
      → Storable o.lib st
      → Holds st s.books.plan
      → s.books.orders ≡ (record_checkout o.lib.show true placed c before).1
      → (load_orders o.lib.show placed before).0 ≡ some records
      → Clean (pending_order placed c)
      → Clean
          (with_status now_text (codes "paid") (some (status_metadata p)) (pending_order placed c))
      → ((handle_toss_webhook o (writing at_now now_text up) r s).0 ≡ accepted)
        × Settled p tier st placed later c
            (handle_toss_webhook o (writing at_now now_text up) r s).1.books
            s.books.plan
  paid_order-Settled reads r p tier placed later st c before records period s delivered new status
        dated named same valid ok held orders loaded clean paid =
      let show = o.lib.show in
      let b = s.books in
      let (context, base, settings, answer, granted, memory, upgraded, _, _) =
        apply_checkout_upgrade_lem o.lib o.env reads at_now tier (some (codes "toss-webhook"))
          (some (codes "Toss 결제 완료 (" ++ (or_default p.order_id (codes "None") ++ codes ")"))) st
          b.plan valid ok held in
      let (updated, found) =
        update_order_status_lem show placed now_text later (codes "paid") (some (status_metadata p))
          (some (order_defaults p tier)) c before b.orders records (id_of p) same orders loaded
          clean paid in
      let full : nonempty (id_of p) ≡ true = ap nonempty same ∙ clean.0.1 in
      let plan = (upgrade_result o (writing at_now now_text up) p tier b).1 in
      let end_books = (paid_books o at_now now_text up p tier b plan).1 in
      let (synced, kept_plan, kept_orders) =
        sync_keeps o at_now now_text up p tier period
          (record b { plan = plan; orders = (marked o at_now now_text up p tier b.orders).1 })
          dated in
      let (accepted', left) =
        handled_lem o at_now now_text up r p tier s end_books delivered new status named (
          payment_done_lem o at_now now_text up p tier b context
            (some (
              with_status now_text (codes "paid") (some (status_metadata p))
                (pending_order placed c)))
            full answer updated
          ∙ synced) in
      (
        accepted',
        (
          ap (λ (x : Books). (get_order show later c.order_id x.orders).0) left
              ∙ ap (λ (x : JsonStateStore). (get_order show later c.order_id x).0) kept_orders
              ∙ found,
          (
            base,
            settings,
            granted,
            ap (λ (x : Books). x.plan.cache) left
                ∙ ap (λ (x : PlanState). x.cache) kept_plan
                ∙ memory,
            upgraded,
          ),
        ),
      )
