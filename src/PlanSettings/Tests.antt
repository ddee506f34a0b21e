-- ===== src/PlanSettings/Tests.antt =====
-- A first trial, an upgrade and a restart.
use ko_finance.Common.{
  Text, codes, text_eq, strip, lstrip, rstrip, lower, normalize, is_space, split_on, first_texts,
  lookup, insert, update, text_keys, end, field_of, truthy, to_int, pos, ℕ, Option, none, some,
  true, false, List, [], ◌∷◌, ◌≡◌, refl, ◌≢◌, arith,
}
use ko_finance.Payments.Contexts.{normalize_optional}
use ko_finance.PlanConfig.{
  default_plan_config, config_fields, tiers_fields, entry_fields, quota_fields, texts_items,
  items_list, iterate, safe_int, safe_flag, normalize_quota,
}
use ko_finance.PlanConfig.Entries.{
  base_tier_config, normalize_entitlements, normalize_tier_entry, merge_fields, merge_items,
  merge_tiers, merge_plan_config,
}
use ko_finance.PlanConfig.Store.{load_plan_config, get_tier_config, tier_entry, clear_cache}
use ko_finance.PlanSettings.{
  Library, PersistedPlanSettings, no_trial, is_active, normalize_plan_tier, parse_iso_datetime,
  parse_trial_state, coerce_bool, coerce_optional_int, quota_overrides, apply_quota_overrides,
  trial_fields, settings_fields,
}
use ko_finance.PlanSettings.Exec.{PlanState, Outcome, returned, raised}
use ko_finance.PlanSettings.Disk.{
  base_entitlements_for_tier, base_quota_for_tier, hydrate_settings, load_plan_settings,
  store_plan_settings,
}
use ko_finance.PlanSettings.Context.{
  PlanEnv, PlanContext, get_active_plan_context, build_plan_context, parse_entitlements, split_pair,
  overrides_from, parse_quota_override_string,
}
use ko_finance.PlanSettings.Changes.{
  PlanUpdate, sorted_insert, sorted_set, update_plan_context, start_plan_trial,
  apply_checkout_upgrade, clear_checkout_requested,
}
use ko_finance.PlanConfig.Merge.{default-NormalTiers}
use ko_finance.PlanSettings.Readback.{Reads, Storable}
use ko_finance.PlanSettings.Held.{Holds}
use ko_finance.PlanSettings.Checkout.{QuotaIs, Upgraded, apply_checkout_upgrade_lem}
use ko_finance.PlanSettings.Cancel.{clear_checkout_requested_lem}
use ko_finance.PlanSettings.Restart.{load-store, update_plan_context_stale}
use ko_finance.PlanSettings.Trial.{upgrade, restart, change, changes, trial_granted_once}

-- An instant is written as one letter whose code follows a `t`.
abbrev read_letter : Text → Option ℕ
read_letter (x ∷ c ∷ s) = some c
read_letter s = none

abbrev letters : Library
letters = record { show = λ v. []; iso = λ t. b't' ∷ t ∷ []; parse_iso = read_letter }

abbrev no_env : PlanEnv
no_env = record {
  default_tier = codes "free";
  default_entitlements = [];
  default_expires_at = none;
}

abbrev fresh : PlanState
fresh = record {
  cache = none;
  file = none;
  base_entitlements = [];
  base_quotas = [];
  config = record { cache = none; file = none };
}

abbrev flows : Unit {0}
unfolding clear_cache load_plan_config get_tier_config tier_entry default_plan_config config_fields
    tiers_fields entry_fields quota_fields texts_items items_list iterate safe_int safe_flag
    normalize_quota base_tier_config normalize_entitlements normalize_tier_entry merge_items
    merge_fields merge_tiers merge_plan_config lookup insert update first_texts field_of truthy
    to_int normalize lower strip lstrip rstrip is_space text_eq split_on is_active
    normalize_plan_tier parse_iso_datetime parse_trial_state coerce_bool coerce_optional_int
    quota_overrides apply_quota_overrides trial_fields settings_fields base_entitlements_for_tier
    base_quota_for_tier hydrate_settings load_plan_settings store_plan_settings build_plan_context
    parse_entitlements split_pair overrides_from parse_quota_override_string sorted_insert
    sorted_set update_plan_context start_plan_trial apply_checkout_upgrade clear_checkout_requested
    change changes normalize_optional
flows = tt

abbrev some_context : PlanContext
some_context = record {
  tier = [];
  base_tier = [];
  expires_at = none;
  entitlements = [];
  quota = record { chat = none; rag = none; self_check = false; peer = none };
  updated_at = none;
  updated_by = none;
  change_note = none;
  checkout_requested = false;
  memory_chat_enabled = false;
  trial = no_trial;
  trial_active = false;
}

abbrev context_in : Outcome PlanContext → PlanContext
context_in (returned c) = c
context_in (raised e) = some_context

first_trial : Outcome PlanContext × PlanState
unfolding flows
first_trial = start_plan_trial letters no_env 3 true true none (codes "pro") none fresh

first_trial_tier : (context_in first_trial.0).tier ≡ codes "pro"
unfolding flows first_trial
first_trial_tier = refl

-- An upgrade and a restart later the trial, which has ended, is refused.
trial_granted_once_example :
    (start_plan_trial letters no_env 900000 true true none (codes "pro") none (
      changes letters no_env
        (upgrade 5 true (codes "starter") none none ∷ restart ∷ [])
        first_trial.1)).0
    ≢ returned some_context
unfolding flows first_trial
trial_granted_once_example =
    trial_granted_once letters no_env fresh
      (upgrade 5 true (codes "starter") none none ∷ restart ∷ []) (context_in first_trial.0)
      some_context 3 900000 true true true true none none (codes "pro") (codes "pro") none none refl

-- Settings of the tier `starter` with a checkout under way, in memory with the default plan config.
abbrev starter_settings : PersistedPlanSettings
starter_settings = record {
  plan_tier = codes "starter";
  entitlements = codes "rag.core" ∷ codes "custom.flag" ∷ [];
  quota = record { chat = some (pos 80); rag = some (pos 5); self_check = true; peer = none };
  expires_at = some 500;
  updated_at = 10;
  updated_by = some (codes "admin");
  change_note = none;
  checkout_requested = true;
  memory_chat = true;
  trial_state = no_trial;
}

abbrev starter_state : PlanState
starter_state = record fresh {
  cache = some starter_settings;
  config = record { cache = some default_plan_config; file = none };
}

letters-Reads : Reads letters
letters-Reads t = (refl, refl)

starter-Storable : Storable letters starter_settings
unfolding flows
starter-Storable =
    (refl, (refl, refl, refl, (refl, refl, refl, tt)), (tt, tt, tt), refl, refl, refl, omega arith)

starter-Holds : Holds starter_settings starter_state
starter-Holds = (refl, (default_plan_config, refl, default-NormalTiers, tt))

apply_checkout_upgrade_lem_example :
    (c : PlanContext) × (base : List Text) × (new : PersistedPlanSettings)
    × ((apply_checkout_upgrade letters no_env 20 true (codes "pro") none none starter_state).0
        ≡ returned c)
    × ((base_entitlements_for_tier letters (codes "pro") starter_state).0 ≡ returned base)
    × ((apply_checkout_upgrade letters no_env 20 true (codes "pro") none none starter_state).1.cache
        ≡ some new)
    × Upgraded (codes "pro") base starter_settings new
    × (is_active 20 no_trial ≡ false → c.tier ≡ codes "pro")
    × QuotaIs letters no_env letters-Reads (codes "pro") starter_settings starter_state new.quota
unfolding flows
apply_checkout_upgrade_lem_example =
    apply_checkout_upgrade_lem letters no_env letters-Reads 20 (codes "pro") none none
      starter_settings starter_state refl starter-Storable starter-Holds

-- The entitlements are sorted, those of `pro` with the one that the settings had besides.
upgraded_entitlements :
    (context_in
      (apply_checkout_upgrade letters no_env 20 true
        (codes "pro")
        none
        none
        starter_state).0).entitlements
    ≡ codes "custom.flag"
      ∷ codes "evidence.inline_pdf"
      ∷ codes "rag.core"
      ∷ codes "reports.event_export"
      ∷ codes "search.compare"
      ∷ codes "search.export"
      ∷ []
unfolding flows
upgraded_entitlements = refl

clear_checkout_requested_lem_example :
    (c : PlanContext) × ((clear_checkout_requested letters no_env 20 true none none starter_state).0
      ≡ returned c)
    × ((clear_checkout_requested letters no_env 20 true none none starter_state).1.cache
        ≡ some (record starter_settings {
          checkout_requested = false;
          updated_at = 20;
          updated_by = starter_settings.updated_by;
          change_note = none;
        }))
unfolding normalize_optional strip
clear_checkout_requested_lem_example =
    clear_checkout_requested_lem letters no_env letters-Reads 20 none none starter_settings
      starter_state starter-Storable starter-Holds

load-store_example :
    (load_plan_settings letters 30 false
      (change letters no_env restart (store_plan_settings letters true starter_settings fresh).1)).0
    ≡ returned (some starter_settings)
unfolding flows
load-store_example =
    load-store letters no_env letters-Reads 30 false starter_settings fresh
      (record { chat = some (pos 80); rag = some (pos 5); self_check = true; peer = some (pos 50) })
      starter-Storable refl

-- Somebody saved at 10, and the caller still expects 9.
abbrev late_update : PlanUpdate
late_update = record {
  plan_tier = codes "free";
  entitlements = [];
  quota = end;
  expires_at = none;
  updated_by = none;
  change_note = none;
  trigger_checkout = false;
  force_checkout_requested = none;
  memory_flags = none;
  expected_updated_at = some (letters.iso 9);
}

update_plan_context_stale_example :
    ((c : PlanContext)
      → (update_plan_context letters no_env 20 true late_update starter_state).0 ≢ returned c)
    × ((update_plan_context letters no_env 20 true late_update starter_state).1.cache
        ≡ some starter_settings)
    × ((update_plan_context letters no_env 20 true late_update starter_state).1.file ≡ none)
unfolding flows
update_plan_context_stale_example =
    update_plan_context_stale letters no_env 20 true late_update starter_settings starter_state refl
      refl

-- A trial whose write fails is active in memory all the same, and not on disk.
unwritten_trial : Outcome PlanContext × PlanState
unfolding flows
unwritten_trial =
    start_plan_trial letters no_env 20 true false none (codes "pro") none starter_state

unwritten_trial_active :
    (context_in (get_active_plan_context letters no_env 21 unwritten_trial.1).0).trial_active ≡ true
unfolding flows unwritten_trial get_active_plan_context
unwritten_trial_active = refl

unwritten_trial_file : unwritten_trial.1.file ≡ none
unfolding flows unwritten_trial
unwritten_trial_file = refl
