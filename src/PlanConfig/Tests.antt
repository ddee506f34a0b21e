-- ===== src/PlanConfig/Tests.antt =====
-- A file that overrides one tier, and an update of another.
use ko_finance.Common.{
  Text, codes, text_eq, strip, lstrip, rstrip, lower, normalize, is_space, first_texts, lookup,
  insert, update, text_keys, Json, null, number, string, array, object, nil, cons, end, field,
  field_of, truthy, to_int, pos, negsuc, none, some, true, false, [], ◌∷◌, ◌≡◌, refl, Items,
}
use ko_finance.PlanConfig.{
  Config, TierConfig, default_plan_config, config_fields, tiers_fields, entry_fields, quota_fields,
  texts_items, items_list, iterate, safe_int, safe_flag, normalize_quota,
}
use ko_finance.PlanConfig.Entries.{
  base_tier_config, normalize_entitlements, normalize_tier_entry, merge_items, merge_fields,
  merge_tiers, merge_plan_config,
}
use ko_finance.PlanConfig.Normal.{Normal}
use ko_finance.PlanConfig.Store.{
  ConfigStore, clear_cache, load_plan_config, get_tier_config, update_plan_config, tier_entry, save,
}
use ko_finance.PlanConfig.Updates.{
  start, get_tier_config-Normal, get_tier_config-update_plan_config,
}

abbrev no_show : Json → Text
no_show v = []

-- `{"tiers": {"pro": {"entitlements": [" rag.core ", "", "rag.core"], "quota": {"ragTopK": -1, "chatRequestsPerDay": 7}}}}`
abbrev pro_file : Json
pro_file = object (
    field (codes "tiers")
      (object (
        field (codes "pro")
          (object (
            field (codes "entitlements")
              (array (
                cons (string (codes " rag.core "))
                  (cons (string []) (cons (string (codes "rag.core")) nil))))
              (field (codes "quota")
                (object (
                  field (codes "ragTopK") (number (negsuc 0))
                    (field (codes "chatRequestsPerDay") (number (pos 7)) end)))
                end)))
          end))
      end)

abbrev first_store : ConfigStore
first_store = record { cache = none; file = some pro_file }

-- Only the limit of `ragTopK` is refused, and the rest of the quota is the default of `pro`.
abbrev pro_entry : TierConfig
pro_entry = record {
  entitlements = codes "rag.core" ∷ [];
  quota = record {
    chat = some (pos 7);
    rag = some (pos 6);
    self_check = true;
    peer = some (pos 100);
  };
}

-- `[{"tier": "free", "quota": {"selfCheckEnabled": "Yes", "peerExportRowLimit": null}}]`
abbrev free_update : Items
free_update =
    cons
      (object (
        field (codes "tier") (string (codes "free")) (
          field (codes "quota")
            (object (
              field (codes "selfCheckEnabled") (string (codes "Yes"))
                (field (codes "peerExportRowLimit") null end)))
            end)))
      nil

abbrev free_entry : TierConfig
free_entry = record {
  entitlements = codes "rag.core" ∷ [];
  quota = record { chat = some (pos 20); rag = some (pos 4); self_check = true; peer = none };
}

abbrev flows : Unit {0}
unfolding clear_cache load_plan_config get_tier_config update_plan_config tier_entry save
    default_plan_config config_fields tiers_fields entry_fields quota_fields texts_items items_list
    iterate safe_int safe_flag normalize_quota base_tier_config normalize_entitlements
    normalize_tier_entry merge_items merge_fields merge_tiers merge_plan_config lookup insert update
    first_texts field_of truthy to_int normalize lower strip lstrip rstrip is_space text_eq
flows = tt

pro_read : (get_tier_config no_show (codes "pro") first_store).0 ≡ some pro_entry
unfolding flows
pro_read = refl

get_tier_config-Normal_example : Normal pro_entry
unfolding flows
get_tier_config-Normal_example =
    get_tier_config-Normal no_show first_store (codes "pro") pro_entry (start (some pro_file)) refl

abbrev first_config : Config
first_config = record default_plan_config {
  tiers = insert (codes "pro") pro_entry default_plan_config.tiers;
}

get_tier_config-update_plan_config_example :
    (get_tier_config no_show (codes "free") (
      clear_cache
        (update_plan_config no_show true
          (codes "2025-01-06")
          free_update
          none
          none
          first_store).1)).0
    ≡ some free_entry
unfolding flows
get_tier_config-update_plan_config_example =
    get_tier_config-update_plan_config no_show first_store (codes "2025-01-06") free_update none
      none ((codes "free", free_entry) ∷ []) first_config (codes "free")
      (record {
        entitlements = codes "rag.core" ∷ [];
        quota = record {
          chat = some (pos 20);
          rag = some (pos 4);
          self_check = false;
          peer = some (pos 0);
        };
      })
      (start (some pro_file)) refl refl refl
