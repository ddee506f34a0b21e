-- ===== src/Entitlement/Billing.antt =====
-- services/entitlement_service.py: the subscription rows that billing means to write.
use ko_finance.Common.{
  ℕ, ◌+◌, ◌-◌, ◌*◌, Text, codes, text_eq, or_text, normalize, erase, nat_keys, text_keys, Json,
  object, end, Option, none, some, or_default, Bool, true, false, ◌&&◌, ◌||◌, leb, not, ◌==◌, [],
  ◌∷◌, ◌++◌, find, if◌then◌else◌,
}
use ko_finance.Entitlement.{Subscription, Tables, Config, Service, slug_or_default}

-- `slug.title()` on the letters a to z.
abbrev title_after : Bool → Text → Text
title_after inside [] = []
title_after inside (c ∷ s) =
    let up = leb 65 c && leb c 90 in
    let low = leb 97 c && leb c 122 in
    (if low && not inside then c - 32 else (if up && inside then c + 32 else c))
    ∷ title_after (up || low) s

abbrev pub title : Text → Text
title s = title_after false s

abbrev pub add_plan : Text → Tables → ℕ × Tables
add_plan slug t = (
  t.next_plan,
  record t {
    plans = t.plans ++ record { id = t.next_plan; slug = slug; name = title slug } ∷ [];
    next_plan = t.next_plan + 1;
  },
)

-- `_ensure_plan`: the id of the plan with this slug, which is added if it is missing. An id of 0
-- counts as missing, and the slug is then refused as a duplicate: `none`.
unfoldable pub ensure_plan : Text → Tables → Option (ℕ × Tables)
ensure_plan slug t = elim (find (λ p. text_eq p.slug slug) t.plans) [
  | some p ↦ if p.id == 0 then none else some (p.id, t)
  | none ↦ some (add_plan slug t)
]

pub record BillingEvent : Type 0 where
  pub plan_slug : Text
  pub status : Text
  pub current_period_end : Option ℕ
  pub metadata : Option Json

-- The upsert of a row into `org_subscriptions`; `none` is the SQLAlchemyError. `text()` binds no name
-- that a colon follows, so `:metadata::jsonb` leaves the statement without the value of the metadata,
-- and it is refused whatever the row and the tables are.
abbrev pub upsert_subscription : ℕ → Subscription → Tables → Option Tables
upsert_subscription org row t = none

module _ (cfg : Config) where
  abbrev pub billed_slug : BillingEvent → Text
  billed_slug e = slug_or_default cfg e.plan_slug

  -- `status.strip().lower() or "active"`
  abbrev pub billed_status : BillingEvent → Text
  billed_status e = or_text (normalize e.status) (codes "active")

  -- The values of the statement.
  abbrev pub subscription_row : ℕ → BillingEvent → ℕ → Subscription
  subscription_row now e plan_id = record {
    plan_id = plan_id;
    status = billed_status e;
    current_period_end = or_default e.current_period_end (now + 86400 * cfg.default_period_days);
    metadata = or_default e.metadata (object end);
    updated_at = now;
  }

  -- `sync_subscription_from_billing`: the flag is false when the error is raised again, with the
  -- transaction rolled back. `up` says whether the statements of `_ensure_plan` succeed.
  unfoldable pub sync_subscription_from_billing :
      Bool → ℕ → ℕ → BillingEvent → Service → Bool × Service
  unfolding ensure_plan
  sync_subscription_from_billing up now org e s =
      elim (if up then ensure_plan (billed_slug e) s.tables else none) [
        | none ↦ (false, s)
        | some (plan_id, t) ↦ elim (upsert_subscription org (subscription_row now e plan_id) t) [
          | none ↦ (false, s)
          | some t' ↦ (true, record s { tables = t'; org_plan_cache = erase org s.org_plan_cache })
        ]
      ]
