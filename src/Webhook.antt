-- ===== src/Webhook.antt =====
-- The Toss webhook of web/routers/payments.py and the check of its signature in
-- services/payments/toss_payments.py: what the handler is given, and the reading of an event.
use ko_finance.Common.{
  ℕ, Text, codes, text_eq, nonempty, strip, lower, split_on, some_text, or_text, Json, null, flag,
  number, real, string, array, object, Fields, end, field, field_of, truthy, to_int, ℤ, pos, Option,
  none, some, or_default, or_else, Bool, true, false, not, ◌&&◌, ◌||◌, List, [], ◌∷◌, ◌++◌, ◌==◌,
  exists, if◌then◌else◌,
}
use ko_finance.JsonStore.{JsonStateStore, text_of, optional}
use ko_finance.Entitlement.{Config, Service}
use ko_finance.Entitlement.Billing.{title}
use ko_finance.Payments.{data_of}
use ko_finance.Payments.OrderStatus.{set_field}
use ko_finance.PlanSettings.{Library}
use ko_finance.PlanSettings.Exec.{PlanState}
use ko_finance.PlanSettings.Context.{PlanEnv}
pub mod Handler
pub mod Routes
pub mod Duplicates
pub mod Paid
pub mod Later
pub mod Unbilled
pub mod Settling
pub mod Journey
pub mod Replay
pub mod Requests
pub mod Confirmed
pub mod Replayed
pub mod Payment
pub mod Recognised
mod ConfirmTests
mod Tests
mod RouteTests

-- What comes from outside: the library and the environment of the plan settings, the configuration of
-- the entitlement service, `datetime.fromisoformat` and `uuid.UUID`, whose errors are `none`,
-- `datetime.fromtimestamp`, where `some none` is an OSError or an OverflowError and `none` the
-- ValueError of a year out of range, HMAC-SHA256 of a message under a secret, base64, and the secret itself.
pub record Outside : Type 0 where
  pub lib : Library
  pub env : PlanEnv
  pub config : Config
  pub from_iso : Text → Option ℕ
  pub from_timestamp : Json → Option (Option ℕ)
  pub parse_uuid : Text → Option ℕ
  pub hmac : Text → Text → Text
  pub b64decode : Text → Option Text
  pub secret : Option Text

-- A request: the headers, the body as a text, if it is UTF-8, and what `json.loads` makes of it.
pub record Request : Type 0 where
  pub transmission_time : Text
  pub signature : Text
  pub transmission_id : Option Text
  pub payload : Option Text
  pub event : Option Json

-- The instant of a request with its text, and whether the writes that it leads to succeed: of the plan
-- settings, the orders, the events and the contexts, and the statements on the database.
pub record Moment : Type 0 where
  pub now : ℕ
  pub now_text : Text
  pub plan_written : Bool
  pub orders_written : Bool
  pub events_written : Bool
  pub contexts_written : Bool
  pub database_up : Bool

-- What the branches of the handler change.
pub record Books : Type 0 where
  pub plan : PlanState
  pub orders : JsonStateStore
  pub service : Service

pub record Billing : Type 0 where
  pub books : Books
  pub contexts : JsonStateStore
  pub events : JsonStateStore

-- 202, or an HTTP error by its code; an exception that nobody catches is a 500.
pub data Answer : Type 0 where
  accepted : Answer
  refused : ℕ → Answer

abbrev drop_prefix : Text → Text → Option Text
drop_prefix [] s = some s
drop_prefix (c ∷ p) [] = none
drop_prefix (c ∷ p) (d ∷ s) = let rest = drop_prefix p s in if c == d then rest else none

-- `data.get(a) or data.get(b)`
abbrev pub either_of : Text → Text → Fields → Json
either_of a b fs =
    let second = or_default (field_of b fs) null in
    elim (field_of a fs) [ none ↦ second | some v ↦ if truthy v then v else second ]

-- `_extract_amount_from_event` on the event's data.
abbrev pub amount_in : Json → Option ℤ
amount_in (number n) = some n
amount_in (real n f) = some n
amount_in (flag b) = to_int (flag b)
amount_in v = none

-- `_event_metadata` on the event's data.
abbrev pub metadata_in : Fields → Fields
metadata_in body = elim (field_of (codes "metadata") body) [
  | some (object fs) ↦ fs
  | some v ↦ end
  | none ↦ end
]

-- `candidate.replace("Z", "+00:00")`
abbrev pub with_offset : Text → Text
with_offset [] = []
with_offset (c ∷ s) =
    let rest = with_offset s in if c == b'Z' then codes "+00:00" ++ rest else c ∷ rest

module _ (o : Outside) where
  -- `hmac.compare_digest(digest, b64decode(part[3:]))` for a part that starts with `v1:`.
  abbrev pub part_matches : Text → Text → Bool
  part_matches digest part = elim (drop_prefix (codes "v1:") (strip part)) [
    | none ↦ false
    | some encoded ↦ elim (o.b64decode encoded) [ none ↦ false | some d ↦ text_eq digest d ]
  ]

  abbrev pub signed_by : Text → Text → Text → Text → Bool
  signed_by secret body time signature =
      exists (part_matches (o.hmac secret (body ++ (codes ":" ++ time)))) (split_on b',' signature)

  abbrev pub verify_body : Option Text → Text → Text → Option Bool
  verify_body none time signature = elim o.secret [ none ↦ none | some s ↦ some false ]
  verify_body (some []) time signature = some false
  verify_body (some (c ∷ body)) time signature = elim o.secret [
    | none ↦ none
    | some s ↦ some (signed_by s (c ∷ body) time signature)
  ]

  -- `verify_toss_webhook_signature`; `none` is the RuntimeError of a secret that is not set.
  unfoldable pub verify_toss_webhook_signature : Request → Option Bool
  verify_toss_webhook_signature r =
      if nonempty r.transmission_time && nonempty r.signature
      then verify_body r.payload r.transmission_time r.signature
      else some false

  -- `_extract_org_id`
  unfoldable pub extract_org_id : Fields → Option ℕ
  extract_org_id metadata =
      let candidate = either_of (codes "orgId") (codes "org_id") metadata in
      if truthy candidate then o.parse_uuid (text_of o.lib.show candidate) else none

  abbrev pub period_of : Json → Option (Option ℕ)
  period_of (number n) = o.from_timestamp (number n)
  period_of (real n f) = o.from_timestamp (real n f)
  period_of (flag b) = o.from_timestamp (flag b)
  period_of (string s) = some (or_else (o.from_iso s) (o.from_iso (with_offset s)))
  period_of v = some none

  -- `_parse_period_end`; `none` is the ValueError that it does not catch.
  unfoldable pub parse_period_end : Fields → Option (Option ℕ)
  parse_period_end metadata =
      period_of (either_of (codes "currentPeriodEnd") (codes "current_period_end") metadata)

abbrev pub plan_label : Text → Text
plan_label tier =
    if text_eq tier (codes "free")
    then codes "Free"
    else (if text_eq tier (codes "starter")
        then codes "Starter"
        else (if text_eq tier (codes "pro")
            then codes "Pro"
            else (if text_eq tier (codes "enterprise") then codes "Team" else title tier)))

-- `_default_order_name`
abbrev pub default_order_name : Text → Text
default_order_name tier = codes "Nuvien " ++ (plan_label tier ++ codes " 플랜 구독")

-- `_PLAN_AMOUNT_FALLBACKS.get(tier, 0)`
abbrev pub amount_fallback : Text → ℤ
amount_fallback tier =
    if text_eq tier (codes "starter")
    then pos 9900
    else (if text_eq tier (codes "pro")
        then pos 39000
        else (if text_eq tier (codes "enterprise") then pos 185000 else pos 0))

-- `amount_from_event or fallback`
abbrev pub amount_or : Option ℤ → Text → ℤ
amount_or none tier = amount_fallback tier
amount_or (some (pos n)) tier = if n == 0 then amount_fallback tier else pos n
amount_or (some n) tier = n
