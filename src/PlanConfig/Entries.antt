-- ===== src/PlanConfig/Entries.antt =====
-- services/plan_config_store.py: tier entries are normalized and merged.
use ko_finance.Common.{
  Text, codes, strip, first_texts, Json, array, object, Items, nil, cons, Fields, end, field,
  field_of, truthy, Dict, lookup, insert, text_keys, Option, none, some, or_default, List, [], map,
  nonempty, if◌then◌else◌,
}
use ko_finance.JsonStore.{text_of}
use ko_finance.PlanConfig.{
  Config, TierConfig, default_plan_config, free_tier, iterate, normalize_quota, or_fallback,
  value_of,
}

-- `_base_tier_config`
unfoldable pub base_tier_config : Text → TierConfig
base_tier_config tier = or_default (lookup tier default_plan_config.tiers) free_tier

module _ (show : Json → Text) where
  -- `str(item or "").strip()`
  abbrev pub entry_text : Json → Text
  entry_text v = if truthy v then strip (text_of show v) else []

  -- `_normalize_entitlements`
  unfoldable pub normalize_entitlements : Json → List Text → Option (List Text)
  normalize_entitlements values fallback = elim (iterate values) [
    | none ↦ none
    | some vs ↦ some (or_fallback fallback (first_texts [] (map entry_text vs)))
  ]

  -- `_normalize_tier_entry`
  unfoldable pub normalize_tier_entry : Text → Fields → Option TierConfig
  normalize_tier_entry tier entry =
      elim (normalize_entitlements (value_of (codes "entitlements") entry)
        (base_tier_config tier).entitlements) [
          | none ↦ none
          | some texts ↦ some (record {
            entitlements = texts;
            quota = normalize_quota (field_of (codes "quota") entry) (base_tier_config tier).quota;
          })
        ]

  abbrev pub tier_of : Fields → Text
  tier_of entry = entry_text (value_of (codes "tier") entry)

  -- `d[tier] = _normalize_tier_entry(tier, entry)` for the entries of a list that name a tier.
  unfoldable pub merge_items : Items → Dict Text TierConfig → Option (Dict Text TierConfig)
  merge_items nil d = some d
  merge_items (cons (object entry) vs) d =
      if nonempty (tier_of entry)
      then elim (normalize_tier_entry (tier_of entry) entry) [
        | none ↦ none
        | some t ↦ merge_items vs (insert (tier_of entry) t d)
      ]
      else merge_items vs d
  merge_items (cons v vs) d = merge_items vs d

  -- The same for a mapping by tier.
  unfoldable pub merge_fields : Fields → Dict Text TierConfig → Option (Dict Text TierConfig)
  merge_fields end d = some d
  merge_fields (field k (object entry) fs) d = elim (normalize_tier_entry k entry) [
    | none ↦ none
    | some t ↦ merge_fields fs (insert k t d)
  ]
  merge_fields (field k v fs) d = merge_fields fs d

  unfoldable pub merge_tiers : Json → Dict Text TierConfig → Option (Dict Text TierConfig)
  merge_tiers (object fs) d = merge_fields fs d
  merge_tiers (array vs) d = merge_items vs d
  merge_tiers v d = some d

  -- `_merge_plan_config`; `none` is an exception, as `raw` has to be a mapping.
  unfoldable pub merge_plan_config : Json → Option Config
  merge_plan_config (object raw) =
      elim (merge_tiers (value_of (codes "tiers") raw) default_plan_config.tiers) [
        | none ↦ none
        | some d ↦ some (record {
          tiers = d;
          updated_at = value_of (codes "updated_at") raw;
          updated_by = value_of (codes "updated_by") raw;
          note = value_of (codes "note") raw;
        })
      ]
  merge_plan_config v = none
