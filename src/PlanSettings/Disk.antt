-- ===== src/PlanSettings/Disk.antt =====
-- Loading and storing the plan settings, and the cached base entitlements and quotas of a tier
-- (services/plan_service.py). The file lock is free when a call asks for it to read; whether a write
-- gets it and succeeds is an input.
use ko_finance.Common.{
  ℕ, Text, codes, strip, first_texts, map, Json, object, Fields, field_of, lookup, insert,
  text_keys, Option, none, some, or_default, is_some, Bool, false, not, ◌&&◌, List, [],
  if◌then◌else◌,
}
use ko_finance.JsonStore.{text_of, optional_text}
use ko_finance.PlanConfig.{Quota, TierConfig, iterate, value_of}
use ko_finance.PlanConfig.Store.{ConfigStore, get_tier_config}
use ko_finance.PlanSettings.{
  Library, PersistedPlanSettings, normalize_plan_tier, parse_iso_datetime, parse_trial_state,
  memory_flag, is_true, quota_overrides, apply_quota_overrides, settings_fields,
}
use ko_finance.PlanSettings.Exec.{
  PlanState, crashed, unavailable, Outcome, returned, raised, Step, pure, or_raise, ◌>>=◌,
}

-- `frozenset(cleaned)`, as a list that holds each text once.
abbrev pub cleaned : List Text → List Text
cleaned ts = first_texts [] (map strip ts)

-- A result of `get_tier_config`, with what `lru_cache` remembers of it.
abbrev pub entitlements_read :
    Text → PlanState → Option TierConfig × ConfigStore → Outcome (List Text) × PlanState
entitlements_read tier s (none, c) = (raised crashed, record s { config = c })
entitlements_read tier s (some t, c) = (
  returned (cleaned t.entitlements),
  record s {
    config = c;
    base_entitlements = insert tier (cleaned t.entitlements) s.base_entitlements;
  },
)

abbrev pub quota_read :
    Text → PlanState → Option TierConfig × ConfigStore → Outcome Quota × PlanState
quota_read tier s (none, c) = (raised crashed, record s { config = c })
quota_read tier s (some t, c) =
    (returned t.quota, record s { config = c; base_quotas = insert tier t.quota s.base_quotas })

abbrev pub remember : PersistedPlanSettings → Step (Option PersistedPlanSettings)
remember st s = (returned (some st), record s { cache = some st })

-- `str(item).strip()`
abbrev pub item_text : (Json → Text) → Json → Text
item_text show v = strip (text_of show v)

module _ (lib : Library) where
  -- `_base_entitlements_for_tier`
  unfoldable pub base_entitlements_for_tier : Text → Step (List Text)
  base_entitlements_for_tier tier s = elim (lookup tier s.base_entitlements) [
    | some ts ↦ (returned ts, s)
    | none ↦ entitlements_read tier s (get_tier_config lib.show tier s.config)
  ]

  -- `_base_quota_for_tier`
  unfoldable pub base_quota_for_tier : Text → Step Quota
  base_quota_for_tier tier s = elim (lookup tier s.base_quotas) [
    | some q ↦ (returned q, s)
    | none ↦ quota_read tier s (get_tier_config lib.show tier s.config)
  ]

  -- The settings of a payload that has been read.
  unfoldable pub hydrate_settings : ℕ → Fields → Step PersistedPlanSettings
  hydrate_settings now fs = do
    items ← or_raise (iterate (value_of (codes "entitlements") fs)) crashed
    base ← base_quota_for_tier (normalize_plan_tier lib (value_of (codes "planTier") fs))
    overrides ← or_raise (quota_overrides (value_of (codes "quota") fs)) crashed
    quota ← or_raise (apply_quota_overrides lib false base overrides) crashed
    trial ← or_raise (parse_trial_state lib (field_of (codes "trial") fs)) crashed
    expires ← or_raise (parse_iso_datetime lib (value_of (codes "expiresAt") fs)) crashed
    updated ← or_raise (parse_iso_datetime lib (value_of (codes "updatedAt") fs)) crashed
    pure (record {
      plan_tier = normalize_plan_tier lib (value_of (codes "planTier") fs);
      entitlements = first_texts [] (map (item_text lib.show) items);
      quota = quota;
      expires_at = expires;
      updated_at = or_default updated now;
      updated_by = optional_text lib.show (field_of (codes "updatedBy") fs);
      change_note = optional_text lib.show (field_of (codes "changeNote") fs);
      checkout_requested = is_true (field_of (codes "checkoutRequested") fs);
      memory_chat = memory_flag (field_of (codes "memoryFlags") fs);
      trial_state = trial;
    })

  abbrev pub read_payload : ℕ → Option Json → Step (Option PersistedPlanSettings)
  read_payload now none s = (returned none, record s { cache = none })
  read_payload now (some (object fs)) s = (hydrate_settings now fs >>= remember) s
  read_payload now (some v) s = (raised crashed, s)

  -- `_load_plan_settings(reload=…)`
  unfoldable pub load_plan_settings : ℕ → Bool → Step (Option PersistedPlanSettings)
  load_plan_settings now reload s =
      if is_some s.cache && not reload then (returned s.cache, s) else read_payload now s.file s

  -- `_store_plan_settings`
  unfoldable pub store_plan_settings : Bool → PersistedPlanSettings → Step (Unit {0})
  store_plan_settings written st s =
      if written
      then (
        returned tt,
        record s { cache = some st; file = some (object (settings_fields lib st)) },
      )
      else (raised unavailable, s)
