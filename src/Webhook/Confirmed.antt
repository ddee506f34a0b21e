-- ===== src/Webhook/Confirmed.antt =====
-- A checkout whose payment the provider has confirmed.
use ko_finance.Common.{
  ℕ, ℤ, Text, codes, text_eq, nonempty, member, string, Fields, end, field, Option, some, or_else,
  Bool, true, false, List, Response, responds, ◌≡◌, refl, sym, ap, ◌∙◌,
}
use mathlib.Core.Path.{subst}
use ko_finance.PlanTiers.{plan_tiers}
use ko_finance.Payments.{extract_tier_from_order_id}
use ko_finance.Payments.Tier.{extract_tier-generate_order_id}
use ko_finance.Payments.Contexts.{OrderContext, new_context, is_fresh, get_order_context}
use ko_finance.Payments.ContextItems
use ko_finance.Payments.ContextUse.{get-record, record_written}
use ko_finance.Payments.Orders.{
  Checkout, record_checkout, TossOrderRecord, load_orders, pending_order, get_order,
}
use ko_finance.Payments.OrderStatus.{merge_fields, update_order_status}
use ko_finance.Payments.OrderItems.{Clean}
use ko_finance.Payments.OrderUse.{update_order_status_lem}
use ko_finance.JsonStore.{JsonStateStore}
use ko_finance.Webhook.{Outside, Moment, Billing}
use ko_finance.Webhook.Routes.{
  create_toss_checkout, read_toss_order, confirm_toss_payment, confirm_defaults, record_context,
}
use ko_finance.Webhook.Requests.{
  Caller, TossCheckoutCreateRequest, TossCheckoutCreateResponse, TossPaymentsConfirmRequest,
  TossPaymentsConfirmResponse, confirmed, confirm_response, resolve_plan_amount,
}
use ko_finance.Webhook.Settling.{writing}
use ko_finance.Webhook.Journey.{asked, read_toss_order_lem, ordered, state_after, create_lem}

-- What a confirmation adds to the metadata of the order.
abbrev payment_key_field : TossPaymentsConfirmRequest → Option Fields
payment_key_field q = some (field (codes "paymentKey") (string q.payment_key) end)

abbrev pub confirmed_order : Text → TossPaymentsConfirmRequest → TossOrderRecord → TossOrderRecord
confirmed_order now q r = record r {
  status = codes "confirmed";
  updated_at = now;
  metadata = merge_fields r.metadata (field (codes "paymentKey") (string q.payment_key) end);
}

-- What a client reads after a confirmation at `now_text` of the order `r`.
abbrev pub ReadsConfirmed :
    Outside
    → (List (Text × Text) → Text)
    → Text
    → Moment
    → Caller
    → TossPaymentsConfirmRequest
    → TossOrderRecord
    → OrderContext
    → Billing
    → Type 0
ReadsConfirmed o urlencode now_text later reader q r context s =
    ((read_toss_order o urlencode later reader q.order_id s).0
      ≡ responds (confirmed_order now_text q r))
    × ((get_order_context o.lib.show q.order_id s.contexts).0 ≡ some context)

-- The context that a confirmation leaves of an order of `tier`.
abbrev pub confirmed_context : Text → Caller → TossPaymentsConfirmRequest → Text → OrderContext
confirmed_context now_text payer q tier =
    new_context now_text q.order_id payer.org (or_else q.plan_tier (some tier)) payer.rbac_user

module _ (o : Outside) (urlencode : List (Text × Text) → Text) (now : ℕ) (now_text : Text)
    (up : Bool) (payer : Caller) (q : TossPaymentsConfirmRequest) where
  abbrev at : Moment
  at = writing now now_text up

  abbrev tier_paid : Option Text
  tier_paid = or_else q.plan_tier (extract_tier_from_order_id (some q.order_id))

  abbrev marked : JsonStateStore → Option (Option TossOrderRecord) × JsonStateStore
  marked orders =
      update_order_status o.lib.show true now_text q.order_id (codes "confirmed")
        (payment_key_field q) (confirm_defaults o urlencode at payer q tier_paid) orders

  -- The stores after a confirmation.
  abbrev state_confirmed : Billing → Billing
  state_confirmed s = record {
    books = record s.books { orders = (marked s.books.orders).1 };
    contexts = (record_context o urlencode at q.order_id payer.org tier_paid payer.rbac_user s).1;
    events = s.events;
  }

  confirm_lem :
      (answer : Fields) (order : Option TossOrderRecord) (s : Billing)
      → nonempty q.order_id ≡ true
      → (marked s.books.orders).0 ≡ some order
      → confirm_toss_payment o urlencode at payer q (confirmed answer) s
        ≡ (confirm_response q answer, state_confirmed s)
  unfolding confirm_toss_payment
  confirm_lem answer order s named updated =
      let written =
        record_written o.lib.show o.from_iso now now_text q.order_id payer.org tier_paid
          payer.rbac_user s.contexts named in
      rw (confirm_toss_payment, written) (rw updated refl)

  -- The confirmation of an order whose checkout was the last to be recorded.
  confirmed_lem :
      (answer : Fields) (placed tier : Text) (c : Checkout) (before : JsonStateStore)
      (records : List TossOrderRecord) (later : Moment) (reader : Caller) (name : Text)
      (s : Billing)
      → s.books.orders ≡ (record_checkout o.lib.show true placed c before).1
      → (load_orders o.lib.show placed before).0 ≡ some records
      → member c.plan_tier plan_tiers ≡ true
      → Clean (pending_order placed c)
      → q.order_id ≡ c.order_id
      → extract_tier_from_order_id (some c.order_id) ≡ some tier
      → Clean (confirmed_order now_text q (pending_order placed c))
      → ContextItems.Clean (confirmed_context now_text payer q tier)
      → is_fresh o.from_iso now (confirmed_context now_text payer q tier) ≡ true
      → reader.user ≡ some name
      → let done = confirm_toss_payment o urlencode at payer q (confirmed answer) s in
        (done.0 ≡ confirm_response q answer)
        × ReadsConfirmed o urlencode now_text later reader q
            (pending_order placed c)
            (confirmed_context now_text payer q tier)
            done.1
  confirmed_lem answer placed tier c before records later reader name s orders loaded valid clean
        same named changed context_clean fresh reads =
      let show = o.lib.show in
      let d = confirm_defaults o urlencode at payer q tier_paid in
      let order = confirmed_order now_text q (pending_order placed c) in
      let (updated, held) =
        update_order_status_lem show placed now_text later.now_text (codes "confirmed")
          (payment_key_field q) d c before s.books.orders records q.order_id same orders loaded
          clean changed in
      let found : (get_order show later.now_text q.order_id (marked s.books.orders).1).0
          ≡ some (some order) =
        ap (λ (id : Text). (get_order show later.now_text id (marked s.books.orders).1).0) same
        ∙ held in
      let tier_eq : tier_paid ≡ or_else q.plan_tier (some tier) =
        ap (λ (id : Text). or_else q.plan_tier (extract_tier_from_order_id (some id))) same
        ∙ ap (or_else q.plan_tier) named in
      let full : nonempty q.order_id ≡ true = ap nonempty same ∙ clean.0.1 in
      let eq = confirm_lem answer (some order) s full updated in
      (
        ap (λ (w : Response TossPaymentsConfirmResponse × Billing). w.0) eq,
        (
          ap
                (λ (w : Response TossPaymentsConfirmResponse × Billing).
                  (read_toss_order o urlencode later reader q.order_id w.1).0)
                eq
              ∙ read_toss_order_lem o urlencode later reader name q.order_id order
                  (state_confirmed s) reads found valid,
          ap
                (λ (w : Response TossPaymentsConfirmResponse × Billing).
                  (get_order_context show q.order_id w.1.contexts).0)
                eq
              ∙ ap
                  (λ (t : Option Text).
                    (get_order_context show q.order_id
                      (record_context o urlencode at q.order_id payer.org t payer.rbac_user s).1).0)
                  tier_eq
              ∙ get-record show o.from_iso now now_text q.order_id payer.org
                  (or_else q.plan_tier (some tier)) payer.rbac_user s.contexts context_clean fresh,
        ),
      )

module _ (o : Outside) (urlencode : List (Text × Text) → Text) (now : ℕ) (now_text : Text)
    (up : Bool) (digits user : Text) (org : Option Text) (p : TossCheckoutCreateRequest)
    (amount : ℤ) where
  abbrev order : TossOrderRecord
  order = asked o urlencode now now_text up digits user org p amount

  -- A confirmed checkout is read as confirmed: when the provider confirms a payment of the order of a
  -- checkout, the route passes the provider's answer on; whoever is logged in reads the order of the
  -- checkout as confirmed, with the key of the payment in its metadata and with the amount of the
  -- checkout, whatever amount the confirmation names; and the order's context is that of the
  -- confirmation. The stored orders can be read, the texts of the order and of its context are read
  -- back as they are written, the files can be written, and the context is younger than 72 hours.
  pub confirmed_checkout-read :
      (rbac_user : Option Text) (catalog : List Fields) (records : List TossOrderRecord)
      (payer : Caller) (q : TossPaymentsConfirmRequest) (answer : Fields) (at_confirmed : ℕ)
      (confirmed_text : Text) (later : Moment) (reader : Caller) (name : Text) (s : Billing)
      → member p.plan_tier plan_tiers ≡ true
      → text_eq p.plan_tier (codes "free") ≡ false
      → resolve_plan_amount p.plan_tier p.amount catalog ≡ some (some amount)
      → (load_orders o.lib.show now_text s.books.orders).0 ≡ some records
      → Clean order
      → q.order_id ≡ order.order_id
      → Clean (confirmed_order confirmed_text q order)
      → ContextItems.Clean (confirmed_context confirmed_text payer q p.plan_tier)
      → is_fresh o.from_iso at_confirmed (confirmed_context confirmed_text payer q p.plan_tier)
        ≡ true
      → reader.user ≡ some name
      → let w =
          create_toss_checkout o urlencode
            (writing now now_text up)
            digits
            catalog
            (record { user = some user; rbac_user = rbac_user; org = org })
            p
            s in
        let done =
          confirm_toss_payment o urlencode
            (writing at_confirmed confirmed_text up)
            payer
            q
            (confirmed answer)
            w.1 in
        (done.0 ≡ confirm_response q answer)
        × ReadsConfirmed o urlencode confirmed_text later reader q order
            (confirmed_context confirmed_text payer q p.plan_tier)
            done.1
  confirmed_checkout-read rbac_user catalog records payer q answer at_confirmed confirmed_text later
        reader name s tier paid price loaded clean same changed context_clean fresh reads =
      let eq =
        create_lem o urlencode now now_text up digits user org p amount rbac_user catalog records s
          paid price loaded clean.0.1 in
      let moment = writing at_confirmed confirmed_text up in
      subst
        (λ (w : Response TossCheckoutCreateResponse × Billing).
          let done = confirm_toss_payment o urlencode moment payer q (confirmed answer) w.1 in
          (done.0 ≡ confirm_response q answer)
          × ReadsConfirmed o urlencode confirmed_text later reader q order
              (confirmed_context confirmed_text payer q p.plan_tier) done.1)
        (sym eq)
        (confirmed_lem o urlencode at_confirmed confirmed_text up payer q answer now_text
          p.plan_tier (ordered o urlencode now now_text up digits user org p amount) s.books.orders
          records later reader name
          (state_after o urlencode now now_text up digits user org p amount s) refl loaded tier
          clean same (extract_tier-generate_order_id p.plan_tier digits tier) changed context_clean
          fresh reads)
