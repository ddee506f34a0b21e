-- ===== src/Entitlement.antt =====
-- services/entitlement_service.py: the plans and limits of organizations, from the caches of the
-- service, the tables of the database and the subscriptions that billing reports.
pub mod Billing
pub mod Usage
pub mod Quota
mod Tests
pub mod Decision
use ko_finance.Common.{
  ℕ, ◌+◌, ◌-◌, ◌*◌, ℤ, pos, Text, codes, text_eq, nonempty, or_text, some_text, normalize, member,
  Dict, lookup, insert, erase, nat_keys, text_keys, Json, null, flag, number, real, string, array,
  object, end, to_int, truthy, field_of, Option, none, some, or_default, Bool, true, false, ◌&&◌,
  ◌||◌, leb, not, ◌==◌, List, [], ◌∷◌, ◌++◌, find, if◌then◌else◌,
}

-- `LimitValue`: a flag, or a count for a day.
pub data LimitValue : Type 0 where
  switch : Bool → LimitValue
  count : ℤ → LimitValue

abbrev pub Limits : Type 0
Limits = Dict Text LimitValue

pub record Plan : Type 0 where
  pub id : ℕ
  pub slug : Text
  pub name : Text

-- A row of `org_subscriptions` without its key, the organization.
pub record Subscription : Type 0 where
  pub plan_id : ℕ
  pub status : Text
  pub current_period_end : ℕ
  pub metadata : Json
  pub updated_at : ℕ

pub record PlanEntitlement : Type 0 where
  pub plan_id : ℕ
  pub key : Text
  pub value : Json

-- The key of `entitlement_usage_daily`: organization, user, action and day.
abbrev pub UsageKey : Type 0
UsageKey = ℕ × (ℕ × (Text × ℕ))

-- The tables; `next_plan` is the sequence behind `plans.id`, and `entitlements` stands in the order
-- of its keys.
pub record Tables : Type 0 where
  pub plans : List Plan
  pub next_plan : ℕ
  pub subscriptions : Dict ℕ Subscription
  pub entitlements : List PlanEntitlement
  pub usage : Dict UsageKey ℤ

-- What the environment sets.
pub record Config : Type 0 where
  pub default_plan_slug : Text
  pub default_period_days : ℕ
  pub redis_prefix : Text

-- The service object with the tables that it works on.
pub record Service : Type 0 where
  pub plan_cache : Dict Text Limits
  pub org_plan_cache : Dict ℕ Text
  pub tables : Tables

pub record Entitlements : Type 0 where
  pub plan : Text
  pub limits : Limits

-- `DEFAULT_PLAN_LIMITS.get(slug, {})`
unfoldable pub default_plan_limits : Text → Limits
default_plan_limits slug =
    if text_eq slug (codes "free")
    then (codes "rag.chat", count (pos 20)) ∷ (codes "api.chat", count (pos 40)) ∷ []
    else (if text_eq slug (codes "starter")
        then (codes "rag.chat", count (pos 80)) ∷ (codes "api.chat", count (pos 150)) ∷ []
        else (if text_eq slug (codes "pro")
            then (codes "rag.chat", count (pos 500)) ∷ (codes "api.chat", count (pos 400)) ∷ []
            else []))

abbrev as_count : Option ℤ → Option LimitValue
as_count none = none
as_count (some n) = some (count n)

-- The object forms of a value: `{"int": …}` before `{"bool": …}`.
abbrev decode_object : Option Json → Option Json → Option LimitValue
decode_object (some v) _ = as_count (to_int v)
decode_object none (some v) = some (switch (truthy v))
decode_object none none = none

-- `_decode_value`
unfoldable pub decode_value : Json → Option LimitValue
decode_value null = none
decode_value (flag b) = some (switch b)
decode_value (number n) = some (count n)
decode_value (object fs) = decode_object (field_of (codes "int") fs) (field_of (codes "bool") fs)
decode_value (real n f) = as_count (to_int (real n f))
decode_value (string s) = as_count (to_int (string s))
decode_value (array xs) = as_count (to_int (array xs))

abbrev pub live_statuses : List Text
live_statuses = codes "active" ∷ codes "trialing" ∷ codes "past_due" ∷ []

abbrev slug_of : Option Plan → Option Text
slug_of none = none
slug_of (some p) = some p.slug

-- The slug that the `SELECT` of `_resolve_plan_slug` finds; the organization is the table's key.
unfoldable pub select_slug : Tables → ℕ → Option Text
select_slug t org = elim (lookup org t.subscriptions) [
  | none ↦ none
  | some os ↦
      if member os.status live_statuses
      then slug_of (find (λ p. p.id == os.plan_id) t.plans)
      else none
]

-- `if cached:`
abbrev pub filled : Option Text → Option Text
filled none = none
filled (some s) = some_text s

module _ (cfg : Config) where
  -- `s.strip().lower() or DEFAULT_PLAN_SLUG`
  abbrev pub slug_or_default : Text → Text
  slug_or_default s = or_text (normalize s) cfg.default_plan_slug

  unfoldable pub resolved_slug : Option Text → Text
  resolved_slug slug = slug_or_default (or_text (or_default slug []) cfg.default_plan_slug)

  -- `_resolve_plan_slug`; `up` says whether the database answers.
  unfoldable pub resolve_plan_slug : Bool → ℕ → Service → Text × Service
  unfolding resolved_slug select_slug
  resolve_plan_slug up org s = elim (filled (lookup org s.org_plan_cache)) [
    | some cached ↦ (cached, s)
    | none ↦
        let slug = resolved_slug (if up then select_slug s.tables org else none) in
        (slug, record s { org_plan_cache = insert org slug s.org_plan_cache })
  ]

-- The rows of `_load_plan_limits` for a plan that its slug names.
abbrev select_entitlements_of : List PlanEntitlement → List Plan → Text → List PlanEntitlement
select_entitlements_of [] plans slug = []
select_entitlements_of (e ∷ es) plans slug =
    let rest = select_entitlements_of es plans slug in
    elim (slug_of (find (λ p. p.id == e.plan_id) plans)) [
      | none ↦ rest
      | some found ↦ if text_eq found slug then e ∷ rest else rest
    ]

unfoldable pub select_entitlements : Tables → Text → List PlanEntitlement
select_entitlements t slug = select_entitlements_of t.entitlements t.plans slug

-- The loop over the rows: an undecodable value or an empty key is skipped.
unfoldable pub apply_rows : List PlanEntitlement → Limits → Limits
apply_rows [] limits = limits
apply_rows (e ∷ es) limits = elim (decode_value e.value) [
  | none ↦ apply_rows es limits
  | some v ↦
      let set = apply_rows es (insert e.key v limits) in
      let skipped = apply_rows es limits in if nonempty e.key then set else skipped
]

module _ (cfg : Config) where
  -- `_load_plan_limits`
  unfoldable pub load_plan_limits : Bool → Text → Service → Limits × Service
  unfolding select_entitlements apply_rows
  load_plan_limits up plan_slug s =
      let slug = slug_or_default cfg plan_slug in
      elim (lookup slug s.plan_cache) [
        | some cached ↦ (cached, s)
        | none ↦
            let rows = if up then select_entitlements s.tables slug else [] in
            let limits = apply_rows rows (default_plan_limits slug) in
            (limits, record s { plan_cache = insert slug limits s.plan_cache })
      ]

  -- `EntitlementService.get`; each of its queries may fail on its own.
  unfoldable pub get : Bool → Bool → ℕ → Service → Entitlements × Service
  unfolding resolve_plan_slug load_plan_limits
  get plan_up limits_up org s =
      let (slug, s1) = resolve_plan_slug cfg plan_up org s in
      let (limits, s2) = load_plan_limits limits_up slug s1 in
      (record { plan = slug; limits = limits }, s2)

-- `invalidate_plan_cache`
unfoldable pub invalidate_plan_cache : Option Text → Service → Service
invalidate_plan_cache slug s = elim (filled slug) [
  | none ↦ record s { plan_cache = [] }
  | some k ↦ record s { plan_cache = erase k s.plan_cache }
]
