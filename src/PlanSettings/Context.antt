-- ===== src/PlanSettings/Context.antt =====
-- The plan context of a request: headers and the environment over the persisted settings
-- (services/plan_service.py). A set of entitlements is a list that holds each text once.
use ko_finance.Common.{
  ℕ, Text, strip, nonempty, split_on, first_texts, member, string, Fields, end, Option, none, some,
  Bool, false, not, ◌&&◌, ◌||◌, ◌==◌, List, [], ◌∷◌, ◌++◌, if◌then◌else◌,
}
use ko_finance.Payments.OrderStatus.{set_field}
use ko_finance.PlanConfig.{Quota, quota_fields}
use ko_finance.PlanSettings.{
  Library, PersistedPlanSettings, PlanTrialState, no_trial, is_active, normalize_plan_tier,
  apply_quota_overrides,
}
use ko_finance.PlanSettings.Exec.{Step, pure, or_raise, crashed, ◌>>=◌}
use ko_finance.PlanSettings.Disk.{
  base_entitlements_for_tier, base_quota_for_tier, load_plan_settings, cleaned,
}

-- DEFAULT_PLAN_TIER, DEFAULT_PLAN_ENTITLEMENTS and DEFAULT_PLAN_EXPIRES_AT, with their defaults.
pub record PlanEnv : Type 0 where
  pub default_tier : Text
  pub default_entitlements : Text
  pub default_expires_at : Option Text

-- `x-plan-tier`, `x-plan-entitlements`, `x-plan-expires-at` and `x-plan-quota`; a header that is
-- missing is empty here, as the code tests the truth value of each.
pub record Headers : Type 0 where
  pub tier : Text
  pub entitlements : Text
  pub expires_at : Text
  pub quota : Text

abbrev pub no_headers : Headers
no_headers = record { tier = []; entitlements = []; expires_at = []; quota = [] }

pub record PlanContext : Type 0 where
  pub tier : Text
  pub base_tier : Text
  pub expires_at : Option ℕ
  pub entitlements : List Text
  pub quota : Quota
  pub updated_at : Option ℕ
  pub updated_by : Option Text
  pub change_note : Option Text
  pub checkout_requested : Bool
  pub memory_chat_enabled : Bool
  pub trial : PlanTrialState
  pub trial_active : Bool

-- `context.allows(entitlement)`
abbrev pub allows : Text → PlanContext → Bool
allows e c = member e c.entitlements

-- `_parse_entitlements`
unfoldable pub parse_entitlements : Text → List Text
parse_entitlements raw = cleaned (split_on b',' raw)

-- `s.split("=", 1)`, if there is a `=`.
unfoldable pub split_pair : Text → Option (Text × Text)
split_pair [] = none
split_pair (c ∷ s) =
    if c == b'='
    then some ([], s)
    else elim (split_pair s) [ none ↦ none | some p ↦ some (c ∷ p.0, p.1) ]

abbrev pub with_pair : Option (Text × Text) → Fields → Fields
with_pair none fs = fs
with_pair (some (k, v)) fs = set_field (strip k) (string (strip v)) fs

unfoldable pub overrides_from : List Text → Fields → Fields
overrides_from [] fs = fs
overrides_from (p ∷ ps) fs = overrides_from ps (with_pair (split_pair p) fs)

-- `_parse_quota_override_string`
unfoldable pub parse_quota_override_string : Text → Fields
parse_quota_override_string raw = overrides_from (split_on b',' raw) end

abbrev pub has_override : Headers → Bool
has_override h =
    nonempty h.tier || nonempty h.entitlements || nonempty h.expires_at || nonempty h.quota

-- `settings and not has_header_override`
abbrev pub visible : Option PersistedPlanSettings → Headers → Option PersistedPlanSettings
visible settings h = if has_override h then none else settings

abbrev pub trial_of : Option PersistedPlanSettings → PlanTrialState
trial_of none = no_trial
trial_of (some st) = st.trial_state

abbrev pub tier_text : PlanEnv → Option PersistedPlanSettings → Text → Text
tier_text env none [] = env.default_tier
tier_text env (some st) [] = st.plan_tier
tier_text env settings (c ∷ s) = c ∷ s

abbrev pub persisted_entitlements : Option PersistedPlanSettings → List Text
persisted_entitlements none = []
persisted_entitlements (some st) = st.entitlements

module _ (lib : Library) (env : PlanEnv) where
  -- The entitlements of the settings, if they hold and name any, or those of the tier.
  abbrev pub granted : Bool → List Text → Text → Step (List Text)
  granted trial_active [] tier = base_entitlements_for_tier lib tier
  granted trial_active (e ∷ es) tier =
      if trial_active then base_entitlements_for_tier lib tier else pure (e ∷ es)

  abbrev pub parse_optional : Option Text → Option ℕ
  parse_optional none = none
  parse_optional (some []) = none
  parse_optional (some (c ∷ s)) = lib.parse_iso (c ∷ s)

  abbrev pub settings_expiry : Option PersistedPlanSettings → Option ℕ
  settings_expiry none = parse_optional env.default_expires_at
  settings_expiry (some st) = elim st.expires_at [
    | none ↦ parse_optional env.default_expires_at
    | some t ↦ some t
  ]

  abbrev pub expiry_of : Option PersistedPlanSettings → Text → Option ℕ
  expiry_of settings [] = settings_expiry settings
  expiry_of settings (c ∷ s) = lib.parse_iso (c ∷ s)

  abbrev pub settings_quota : Option PersistedPlanSettings → Quota → Option Quota
  settings_quota none q = some q
  settings_quota (some st) q = apply_quota_overrides lib false q (quota_fields st.quota)

  abbrev pub header_quota : Text → Quota → Option Quota
  header_quota [] q = some q
  header_quota (c ∷ s) q = apply_quota_overrides lib false q (parse_quota_override_string (c ∷ s))

  -- The context from the settings, the base tier, whether the trial is active, and what is granted.
  abbrev pub context_of :
      Option PersistedPlanSettings → Headers → Text → Text → Bool → List Text → Quota → PlanContext
  context_of settings h base_tier tier active entitlements quota = record {
    tier = tier;
    base_tier = base_tier;
    expires_at = expiry_of (visible settings h) h.expires_at;
    entitlements = first_texts [] (
        entitlements
        ++ parse_entitlements env.default_entitlements
        ++ parse_entitlements h.entitlements);
    quota = quota;
    updated_at = elim settings [ none ↦ none | some st ↦ some st.updated_at ];
    updated_by = elim settings [ none ↦ none | some st ↦ st.updated_by ];
    change_note = elim settings [ none ↦ none | some st ↦ st.change_note ];
    checkout_requested = elim settings [ none ↦ false | some st ↦ st.checkout_requested ];
    memory_chat_enabled = elim settings [ none ↦ false | some st ↦ st.memory_chat ];
    trial = trial_of settings;
    trial_active = active;
  }

  abbrev pub base_tier_of : Option PersistedPlanSettings → Headers → Text
  base_tier_of settings h =
      normalize_plan_tier lib (string (tier_text env (visible settings h) h.tier))

  abbrev pub trial_runs : ℕ → Option PersistedPlanSettings → Headers → Bool
  trial_runs now settings h = not (has_override h) && is_active now (trial_of settings)

  abbrev pub effective_tier : ℕ → Option PersistedPlanSettings → Headers → Text
  effective_tier now settings h =
      if trial_runs now settings h then (trial_of settings).tier else base_tier_of settings h

  -- `_build_plan_context`
  unfoldable pub build_plan_context : ℕ → Headers → Step PlanContext
  build_plan_context now h = do
    settings ← load_plan_settings lib now false
    entitlements ←
        granted (trial_runs now settings h) (persisted_entitlements (visible settings h))
          (effective_tier now settings h)
    base ← base_quota_for_tier lib (effective_tier now settings h)
    quota ← or_raise (settings_quota (visible settings h) base) crashed
    quota ← or_raise (header_quota h.quota quota) crashed
    pure (
        context_of settings h (base_tier_of settings h) (effective_tier now settings h)
          (trial_runs now settings h) entitlements quota)

  -- `get_active_plan_context`
  unfoldable pub get_active_plan_context : ℕ → Step PlanContext
  get_active_plan_context now = build_plan_context now no_headers
