-- ===== src/Webhook/Replay.antt =====
-- services/payments/toss_webhook_replay.py: an event of the audit log is applied again by hand.
use ko_finance.Common.{
  ℕ, pos, truthy, Text, codes, text_eq, nonempty, or_text, member, number, string, Fields, field_of,
  Option, none, some, or_default, Bool, false, List, [], ◌∷◌, ◌++◌, leb, if◌then◌else◌,
}
use ko_finance.Payments.{
  resolve_payment_status, resolve_order_id, extract_tier_from_order_id, build_webhook_dedupe_key,
  record_webhook_event,
}
use ko_finance.PlanSettings.Exec.{Outcome, returned, raised, PlanState}
use ko_finance.PlanSettings.Context.{PlanContext}
use ko_finance.PlanSettings.Changes.{apply_checkout_upgrade, clear_checkout_requested}
use ko_finance.Webhook.{Outside, Moment, Billing}
use ko_finance.Webhook.Payment.{payment_event, canceled_statuses}

-- A row of `payments_toss_webhook_events`, with the texts of its context, as the handler logs them.
pub record TossWebhookEventLog : Type 0 where
  pub transmission_id : Option Text
  pub status : Option Text
  pub payload : Option Fields
  pub context_event_type : Option Text
  pub context_status : Option Text
  pub context_order_id : Option Text
  pub created_at : ℕ

-- What a replay returns; `failed` is an exception.
pub data Replayed : Type 0 where
  ignored failed : Replayed
  upgraded : Text → Option Text → Text → Replayed
  cleared noop : Text → Option Text → Replayed

-- What is left to do once the event has been read.
pub record Replay : Type 0 where
  pub event_type : Option Text
  pub status : Text
  pub order_id : Option Text

abbrev has_transmission : Text → TossWebhookEventLog → Bool
has_transmission id r = elim r.transmission_id [ none ↦ false | some t ↦ text_eq t id ]

-- The last row of a transmission, by its instant; of several, the one that stands first.
abbrev pub load_webhook_record : Text → List TossWebhookEventLog → Option TossWebhookEventLog
load_webhook_record id [] = none
load_webhook_record id (r ∷ rs) =
    let later = load_webhook_record id rs in
    if has_transmission id r
    then elim later [
      | none ↦ some r
      | some l ↦ if leb l.created_at r.created_at then some r else some l
    ]
    else later

-- `value or fallback` on texts.
abbrev pub text_else : Option Text → Option Text → Option Text
text_else none fallback = fallback
text_else (some s) fallback = if nonempty s then some s else fallback

-- A type that is no text is none that the handler knows.
abbrev pub event_type_of : Fields → Option Text → Option Text
event_type_of event fallback = elim (field_of (codes "eventType") event) [
  | some (string s) ↦ text_else (some s) fallback
  | some v ↦ if truthy v then some [] else fallback
  | none ↦ fallback
]

-- The event of a row; `none` is the AttributeError of an event whose data are no dict.
abbrev pub read_replay : TossWebhookEventLog → Fields → Option Replay
read_replay r event = elim (resolve_payment_status event) [
  | none ↦ none
  | some status ↦ some (record {
    event_type = event_type_of event r.context_event_type;
    status = or_default (text_else status (text_else r.status r.context_status)) [];
    order_id = text_else (or_default (resolve_order_id event) none) r.context_order_id;
  })
]

module _ (o : Outside) (at : Moment) (id : Text) where
  -- `f"{dedupe_key or transmission_id}:replay:{int(time.time())}"`
  abbrev pub replay_key : Replay → Text
  replay_key e =
      or_text (or_default (build_webhook_dedupe_key (some id) e.order_id (some e.status)) []) id
      ++ (codes ":replay:" ++ o.lib.show (number (pos at.now)))

  abbrev pub record_replay : Replay → Replayed → Billing → Replayed × Billing
  record_replay e answer s =
      let (written, events) =
        record_webhook_event o.lib.show at.events_written at.now_text (some (replay_key e))
          (some id) e.order_id (some e.status) e.event_type s.events in
      (if written then answer else failed, record s { events = events })

  -- A change of the plan settings that has ended.
  abbrev pub after_change :
      Replay → Replayed → Billing → Outcome PlanContext × PlanState → Replayed × Billing
  after_change e answer s (returned c, plan) =
      record_replay e answer (record s { books = record s.books { plan = plan } })
  after_change e answer s (raised x, plan) =
      (failed, record s { books = record s.books { plan = plan } })

  abbrev pub replay_upgrade : Replay → Text → Billing → Replayed × Billing
  replay_upgrade e tier s = after_change e (upgraded e.status e.order_id tier) s (
      apply_checkout_upgrade o.lib o.env at.now at.plan_written tier
        (some (codes "toss-webhook-replay"))
        (some (codes "Toss 결제 수동 재처리 (" ++ (or_default e.order_id (codes "None") ++ codes ")")))
        s.books.plan)

  abbrev pub replay_cancel : Replay → Billing → Replayed × Billing
  replay_cancel e s =
      let named = codes "Toss 결제 수동 재처리 취소 (" ++ (or_default e.order_id [] ++ codes ")") in
      after_change e (cleared e.status e.order_id) s (
        clear_checkout_requested o.lib o.env at.now at.plan_written
          (some (codes "toss-webhook-replay"))
          (some (if nonempty (or_default e.order_id []) then named else codes "Toss 결제 수동 재처리 취소"))
          s.books.plan)

  -- The branches by status.
  unfoldable pub apply_replay : Replay → Billing → Replayed × Billing
  apply_replay e s =
      if text_eq e.status (codes "DONE")
      then elim (extract_tier_from_order_id e.order_id) [
        | none ↦ (failed, s)
        | some tier ↦ replay_upgrade e tier s
      ]
      else (if member e.status canceled_statuses
          then replay_cancel e s
          else (noop e.status e.order_id, s))

  abbrev pub replay_event : Replay → Billing → Replayed × Billing
  replay_event e s =
      if text_eq (or_default e.event_type []) payment_event
      then (if nonempty e.status then apply_replay e s else (failed, s))
      else (ignored, s)

  abbrev pub replay_record : TossWebhookEventLog → Option Fields → Billing → Replayed × Billing
  replay_record r none s = (failed, s)
  replay_record r (some Fields.end) s = (failed, s)
  replay_record r (some event) s = elim (read_replay r event) [
    | none ↦ (failed, s)
    | some e ↦ replay_event e s
  ]

  -- `replay_toss_webhook_event`
  unfoldable pub replay_toss_webhook_event : List TossWebhookEventLog → Billing → Replayed × Billing
  replay_toss_webhook_event log s =
      if nonempty id
      then elim (load_webhook_record id log) [
        | none ↦ (failed, s)
        | some r ↦ replay_record r r.payload s
      ]
      else (failed, s)
