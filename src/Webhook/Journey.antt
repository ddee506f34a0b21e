-- ===== src/Webhook/Journey.antt =====
-- The way of an order: its checkout, and the webhook that reports it as paid.
use ko_finance.Common.{
  ℕ, ℤ, Text, codes, text_eq, nonempty, or_text, member, Fields, Option, some, or_default, Bool,
  true, false, List, [], Response, responds, http_error, ◌≡◌, refl, sym, ap, ◌∙◌, if◌then◌else◌,
}
use mathlib.Core.Path.{subst}
use ko_finance.PlanTiers.{plan_tiers}
use ko_finance.JsonStore.{JsonStateStore}
use ko_finance.Payments.{generate_order_id, extract_tier_from_order_id, has_processed_webhook}
use ko_finance.Payments.Tier.{extract_tier-generate_order_id}
use ko_finance.Payments.Contexts.{
  OrderContext, new_context, is_fresh, get_order_context, record_order_context,
}
use ko_finance.Payments.ContextItems
use ko_finance.Payments.ContextUse.{get-record, record_written}
use ko_finance.Payments.Orders.{
  TossOrderRecord, Checkout, load_orders, pending_order, record_checkout, get_order,
}
use ko_finance.Payments.OrderStatus.{with_status}
use ko_finance.Payments.OrderItems.{Clean}
use ko_finance.Payments.OrderUse.{order_of, get_order-record_checkout, record_checkout-some}
use ko_finance.Webhook.{
  default_order_name, Outside, Request, Moment, Billing, accepted, parse_period_end, metadata_in,
}
use ko_finance.Webhook.Routes.{
  checkout_response, place_order, priced_order, create_toss_checkout, read_toss_order, order_answer,
}
use ko_finance.Webhook.Requests.{
  Caller, TossCheckoutCreateRequest, TossCheckoutCreateResponse, resolve_plan_amount,
  requested_order, sanitize_redirect_path, checkout_metadata, upper,
}
use ko_finance.PlanSettings.{PersistedPlanSettings}
use ko_finance.PlanSettings.Readback.{Reads, IsTier, Storable}
use ko_finance.PlanSettings.Held.{Holds}
use ko_finance.Webhook.Handler.{handle_toss_webhook}
use ko_finance.Webhook.Payment.{Payment, status_metadata}
use ko_finance.Webhook.Duplicates.{Delivers}
use ko_finance.Webhook.Paid.{Settled, paid_order-Settled}
use ko_finance.Webhook.Settling.{writing}

pub read_toss_order_lem :
    (o : Outside) (urlencode : List (Text × Text) → Text) (at : Moment) (reader : Caller)
    (name id : Text) (r : TossOrderRecord) (s : Billing)
    → reader.user ≡ some name
    → (get_order o.lib.show at.now_text id s.books.orders).0 ≡ some (some r)
    → member r.plan_tier plan_tiers ≡ true
    → (read_toss_order o urlencode at reader id s).0 ≡ responds r
unfolding read_toss_order
read_toss_order_lem o urlencode at reader name id r s user found tier =
    let answer : (read_toss_order o urlencode at reader id s).0
        ≡ order_answer o urlencode at (get_order o.lib.show at.now_text id s.books.orders).0 =
      rw (read_toss_order, user) refl in
    answer ∙ ap (order_answer o urlencode at) found ∙ rw tier refl

module _ (o : Outside) (urlencode : List (Text × Text) → Text) (now : ℕ) (now_text : Text)
    (up : Bool) where
  abbrev at : Moment
  at = writing now now_text up

  abbrev context_recorded : Checkout → JsonStateStore → Bool × JsonStateStore
  context_recorded c contexts =
      record_order_context o.lib.show o.from_iso true now now_text c.order_id c.org_id
        (some c.plan_tier) c.user_id contexts

  -- The stores after a checkout.
  abbrev pub checked_out : Checkout → Billing → Billing
  checked_out c s = record {
    books = record s.books {
      orders = (record_checkout o.lib.show true now_text c s.books.orders).1;
    };
    contexts = (context_recorded c s.contexts).1;
    events = s.events;
  }

  place_order_lem :
      (c : Checkout) (redirect : Option Text) (r : TossOrderRecord) (s : Billing)
      → (record_checkout o.lib.show true now_text c s.books.orders).0 ≡ some r
      → (context_recorded c s.contexts).0 ≡ true
      → place_order o urlencode at c redirect s
        ≡ (responds (checkout_response o urlencode at c redirect), checked_out c s)
  place_order_lem c redirect r s order context = rw (place_order, order) (rw context refl)

module _ (o : Outside) (urlencode : List (Text × Text) → Text) (now : ℕ) (now_text : Text)
    (up : Bool) (digits user : Text) (org : Option Text) (p : TossCheckoutCreateRequest)
    (amount : ℤ) where
  -- The order of the request.
  abbrev pub ordered : Checkout
  ordered = requested_order digits user org p amount

  -- The checkout that the request asks for, written out, and its order.
  abbrev pub asked_checkout : Checkout
  asked_checkout = record {
    order_id = generate_order_id p.plan_tier digits;
    plan_tier = p.plan_tier;
    amount = amount;
    currency = upper (or_text (or_default p.currency []) (codes "KRW"));
    order_name = or_text (or_default p.order_name []) (default_order_name p.plan_tier);
    user_id = some user;
    org_id = org;
    metadata = checkout_metadata p;
  }

  abbrev pub asked : TossOrderRecord
  asked = order_of now_text now_text (codes "pending") (checkout_metadata p) asked_checkout

  -- The answer to the request, written out but for the two paths.
  abbrev pub Answers : Response TossCheckoutCreateResponse → Type 0
  Answers w =
      (success fail : Text) × (w
        ≡ responds (record {
          order_id = generate_order_id p.plan_tier digits;
          plan_tier = p.plan_tier;
          amount = amount;
          currency = upper (or_text (or_default p.currency []) (codes "KRW"));
          order_name = or_text (or_default p.order_name []) (default_order_name p.plan_tier);
          success_path = success;
          fail_path = fail;
          status = codes "pending";
          created_at = now_text;
        }))

  abbrev pub order_context : OrderContext
  order_context = new_context now_text ordered.order_id org (some p.plan_tier) (some user)

  abbrev answer : TossCheckoutCreateResponse
  answer =
      checkout_response o urlencode (at o urlencode now now_text up) ordered
        (sanitize_redirect_path p.redirect_path)

  abbrev pub state_after : Billing → Billing
  state_after s = checked_out o urlencode now now_text up ordered s

  pub create_lem :
      (rbac_user : Option Text) (catalog : List Fields) (records : List TossOrderRecord)
      (s : Billing)
      → text_eq p.plan_tier (codes "free") ≡ false
      → resolve_plan_amount p.plan_tier p.amount catalog ≡ some (some amount)
      → (load_orders o.lib.show now_text s.books.orders).0 ≡ some records
      → nonempty ordered.order_id ≡ true
      → create_toss_checkout o urlencode
          (writing now now_text up)
          digits
          catalog
          (record { user = some user; rbac_user = rbac_user; org = org })
          p
          s
        ≡ (responds answer, state_after s)
  unfolding create_toss_checkout
  create_lem rbac_user catalog records s paid price loaded named =
      let order =
        record_checkout-some o.lib.show now_text ordered s.books.orders records named loaded in
      let context =
        record_written o.lib.show o.from_iso now now_text ordered.order_id org (some p.plan_tier)
          (some user) s.contexts named in
      let route = writing now now_text up in
      let priced =
        λ (q : Option (Option ℤ)). priced_order o urlencode route digits user org p q s in
      ap
        (λ (free : Bool).
          if free
          then (http_error 400, s)
          else priced (resolve_plan_amount p.plan_tier p.amount catalog))
        paid
      ∙ ap priced price
      ∙ place_order_lem o urlencode now now_text up ordered (sanitize_redirect_path p.redirect_path)
          (pending_order now_text ordered) s order context

  -- A checkout is placed: for a user who is logged in and a paid tier whose amount is known, the route
  -- answers with the order; on the state that it leaves whoever is logged in reads the order, pending,
  -- with the tier, the amount, the buyer and the texts that were asked for; its context is found; and
  -- its id names the tier. The stored orders can be read, the texts of the order and of its context are
  -- read back as they are written, the files can be written, and the context is younger than 72 hours.
  pub create_toss_checkout-read :
      (rbac_user : Option Text) (catalog : List Fields) (records : List TossOrderRecord)
      (later : Moment) (reader : Caller) (name : Text) (s : Billing)
      → member p.plan_tier plan_tiers ≡ true
      → text_eq p.plan_tier (codes "free") ≡ false
      → resolve_plan_amount p.plan_tier p.amount catalog ≡ some (some amount)
      → (load_orders o.lib.show now_text s.books.orders).0 ≡ some records
      → Clean (pending_order now_text ordered)
      → ContextItems.Clean order_context
      → is_fresh o.from_iso now order_context ≡ true
      → reader.user ≡ some name
      → let w =
          create_toss_checkout o urlencode
            (writing now now_text up)
            digits
            catalog
            (record { user = some user; rbac_user = rbac_user; org = org })
            p
            s in
        Answers w.0
        × ((read_toss_order o urlencode later reader ordered.order_id w.1).0 ≡ responds asked)
        × ((get_order_context o.lib.show ordered.order_id w.1.contexts).0 ≡ some order_context)
        × (extract_tier_from_order_id (some ordered.order_id) ≡ some p.plan_tier)
  create_toss_checkout-read rbac_user catalog records later reader name s tier paid price loaded
        clean context fresh reads =
      let eq = create_lem rbac_user catalog records s paid price loaded clean.0.1 in
      let found =
        get_order-record_checkout o.lib.show now_text later.now_text ordered s.books.orders records
          loaded clean in
      (
        (
          answer.success_path,
          answer.fail_path,
          ap (λ (w : Response TossCheckoutCreateResponse × Billing). w.0) eq,
        ),
        ap
              (λ (w : Response TossCheckoutCreateResponse × Billing).
                (read_toss_order o urlencode later reader ordered.order_id w.1).0)
              eq
            ∙ read_toss_order_lem o urlencode later reader name ordered.order_id
                (pending_order now_text ordered) (state_after s) reads found tier,
        ap
              (λ (w : Response TossCheckoutCreateResponse × Billing).
                (get_order_context o.lib.show ordered.order_id w.1.contexts).0)
              eq
            ∙ get-record o.lib.show o.from_iso now now_text ordered.order_id org (some p.plan_tier)
                (some user) s.contexts context fresh,
        extract_tier-generate_order_id p.plan_tier digits tier,
      )

  -- A checkout that is paid is settled: when the first webhook after the checkout is the signed event
  -- that its order is done, it is accepted; the plan settings have the tier that was asked for and the
  -- entitlements of the tier and of before, without the checkout flag; and the order is found as paid.
  -- The conditions are those of the checkout and of the webhook: an amount that is known, settings in
  -- memory, a plan config that is ready, texts and dates that are read back as they are written, files
  -- that can be written, and an end of the period, if the metadata have one, that raises no ValueError.
  pub paid_checkout-Settled :
      (reads : Reads o.lib) (rbac_user : Option Text) (catalog : List Fields)
      (records : List TossOrderRecord) (r : Request) (pay : Payment) (at_paid : ℕ)
      (paid_text later : Text) (st : PersistedPlanSettings) (period : Option ℕ) (s : Billing)
      → member p.plan_tier plan_tiers ≡ true
      → text_eq p.plan_tier (codes "free") ≡ false
      → resolve_plan_amount p.plan_tier p.amount catalog ≡ some (some amount)
      → (load_orders o.lib.show now_text s.books.orders).0 ≡ some records
      → Clean (pending_order now_text ordered)
      → Delivers o r pay
      → (has_processed_webhook o.lib.show pay.key s.events).0 ≡ false
      → or_default pay.status [] ≡ codes "DONE"
      → pay.order_id ≡ some ordered.order_id
      → parse_period_end o (metadata_in pay.body) ≡ some period
      → IsTier o.lib p.plan_tier
      → Storable o.lib st
      → Holds st s.books.plan
      → Clean (
          with_status paid_text
            (codes "paid")
            (some (status_metadata pay))
            (pending_order now_text ordered))
      → let w =
          create_toss_checkout o urlencode
            (writing now now_text up)
            digits
            catalog
            (record { user = some user; rbac_user = rbac_user; org = org })
            p
            s in
        let done = handle_toss_webhook o (writing at_paid paid_text up) r w.1 in
        (done.0 ≡ accepted)
        × Settled o at_paid paid_text up pay p.plan_tier st now_text later asked_checkout
            done.1.books s.books.plan
  paid_checkout-Settled reads rbac_user catalog records r pay at_paid paid_text later st period s
        tier paid price loaded clean delivered new status same dated valid storable held settled =
      let eq = create_lem rbac_user catalog records s paid price loaded clean.0.1 in
      let named =
        ap extract_tier_from_order_id same
        ∙ extract_tier-generate_order_id p.plan_tier digits tier in
      subst
        (λ (w : Response TossCheckoutCreateResponse × Billing).
          let done = handle_toss_webhook o (writing at_paid paid_text up) r w.1 in
          (done.0 ≡ accepted)
          × Settled o at_paid paid_text up pay p.plan_tier st now_text later asked_checkout
              done.1.books s.books.plan)
        (sym eq)
        (paid_order-Settled o at_paid paid_text up reads r pay p.plan_tier now_text later st ordered
          s.books.orders records period (state_after s) delivered new status dated named
          (ap (λ (i : Option Text). or_default i []) same) valid storable held refl loaded clean
          settled)
