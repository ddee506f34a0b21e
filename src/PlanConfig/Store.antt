-- ===== src/PlanConfig/Store.antt =====
-- The cached file of services/plan_config_store.py: a JsonStore of services/json_store.py with the
-- config's loader and default.
use ko_finance.Common.{
  Text, codes, strip, some_text, Json, object, string, Dict, lookup, update, text_keys, Option,
  none, some, or_default, Bool, false, [], if◌then◌else◌, Items,
}
use ko_finance.JsonStore.{optional}
use ko_finance.PlanConfig.{Config, TierConfig, config_fields, default_plan_config, free_tier}
use ko_finance.PlanConfig.Entries.{merge_plan_config, merge_items}

-- `_cache`, and what `json.loads` reads of the file: `none` for a file that is missing or no JSON.
pub record ConfigStore : Type 0 where
  pub cache : Option Config
  pub file : Option Json

-- `clear_cache()`
unfoldable pub clear_cache : ConfigStore → ConfigStore
clear_cache s = record s { cache = none }

-- `read_json_document(path, default=fallback)`
abbrev pub raw_payload : ConfigStore → Json
raw_payload s = or_default s.file (object (config_fields default_plan_config))

-- The cache takes what was loaded; an exception of the loader leaves it.
abbrev pub loaded : Option Config → ConfigStore → Option Config × ConfigStore
loaded none s = (none, s)
loaded (some c) s = (some c, record s { cache = some c })

-- `tiers.get(tier) or tiers.get("free") or _base_tier_config("free")`
unfoldable pub tier_entry : Text → Config → TierConfig
tier_entry tier c =
    or_default (lookup tier c.tiers) (or_default (lookup (codes "free") c.tiers) free_tier)

-- `(value or "").strip() or None`
abbrev pub stamp : Option Text → Json
stamp value = optional (some_text (strip (or_default value [])))

abbrev pub updated_config :
    Dict Text TierConfig → Text → Option Text → Option Text → Config → Config
updated_config entries now updated_by remark c = record {
  tiers = update c.tiers entries;
  updated_at = string now;
  updated_by = stamp updated_by;
  note = stamp remark;
}

-- `save(payload)`; `written` says whether the write succeeds, which raises OSError otherwise.
unfoldable pub save : Bool → Config → ConfigStore → Option Config × ConfigStore
save written c s =
    if written
    then (some c, record { cache = some c; file = some (object (config_fields c)) })
    else (none, s)

abbrev pub save_updated :
    Bool
    → Dict Text TierConfig
    → Text
    → Option Text
    → Option Text
    → Option Config × ConfigStore
    → Option Config × ConfigStore
save_updated written entries now updated_by remark (none, s) = (none, s)
save_updated written entries now updated_by remark (some c, s) =
    save written (updated_config entries now updated_by remark c) s

module _ (show : Json → Text) where
  abbrev pub load_file : ConfigStore → Option Config × ConfigStore
  load_file s = loaded (merge_plan_config show (raw_payload s)) s

  -- `load_plan_config(reload=…)`
  unfoldable pub load_plan_config : Bool → ConfigStore → Option Config × ConfigStore
  load_plan_config reload s = elim s.cache [
    | none ↦ load_file s
    | some c ↦ if reload then load_file s else (some c, s)
  ]

  -- `get_tier_config`
  unfoldable pub get_tier_config : Text → ConfigStore → Option TierConfig × ConfigStore
  get_tier_config tier s =
      let (c, s') = load_plan_config false s in
      (elim c [ none ↦ none | some c ↦ some (tier_entry tier c) ], s')

  -- `list_tier_configs`
  unfoldable pub list_tier_configs : ConfigStore → Option (Dict Text TierConfig) × ConfigStore
  list_tier_configs s =
      let (c, s') = load_plan_config false s in (elim c [ none ↦ none | some c ↦ some c.tiers ], s')

  -- `update_plan_config`; `none` is an exception.
  unfoldable pub update_plan_config :
      Bool → Text → Items → Option Text → Option Text → ConfigStore → Option Config × ConfigStore
  update_plan_config written now tiers updated_by remark s = elim (merge_items show tiers []) [
    | none ↦ (none, s)
    | some entries ↦ save_updated written entries now updated_by remark (load_plan_config false s)
  ]
