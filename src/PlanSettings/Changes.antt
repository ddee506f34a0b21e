-- ===== src/PlanSettings/Changes.antt =====
-- The calls that change the plan settings (services/plan_service.py). The instant of a call is one
-- input, as is whether its write succeeds.
use ko_finance.Common.{
  ℕ, ◌+◌, ◌*◌, Text, codes, text_eq, nonempty, Json, string, object, flag, Fields, end, field, ℤ,
  pos, Option, none, some, or_default, Bool, true, false, not, List, [], ◌∷◌, ◌++◌, if◌then◌else◌,
  ltb, suc,
}
use ko_finance.Payments.Contexts.{normalize_optional}
use ko_finance.PlanConfig.{Quota, quota_fields}
use ko_finance.PlanSettings.{
  Library, PersistedPlanSettings, PlanTrialState, no_trial, is_active, memory_flag,
  normalize_plan_tier, apply_quota_overrides,
}
use ko_finance.PlanSettings.Exec.{
  Step, returned, pure, or_raise, raise_if, conflict, invalid, ◌>>=◌, ◌>>◌,
}
use ko_finance.PlanSettings.Disk.{
  base_entitlements_for_tier, base_quota_for_tier, load_plan_settings, store_plan_settings, cleaned,
}
use ko_finance.PlanSettings.Context.{
  PlanEnv, PlanContext, build_plan_context, no_headers, trial_of, persisted_entitlements,
}

pub record PlanUpdate : Type 0 where
  pub plan_tier : Text
  pub entitlements : List Text
  pub quota : Fields
  pub expires_at : Option Text
  pub updated_by : Option Text
  pub change_note : Option Text
  pub trigger_checkout : Bool
  pub force_checkout_requested : Option Bool
  pub memory_flags : Option Fields
  pub expected_updated_at : Option Text

abbrev pub flags_json : Option Fields → Option Json
flags_json none = none
flags_json (some fs) = some (object fs)

abbrev pub checkout_of : Option PersistedPlanSettings → Bool
checkout_of none = false
checkout_of (some st) = st.checkout_requested

abbrev pub checkout_after : PlanUpdate → Option PersistedPlanSettings → Bool
checkout_after u existing = elim u.force_checkout_requested [
  | some b ↦ b
  | none ↦ if u.trigger_checkout then true else checkout_of existing
]

abbrev pub day : ℕ
day = 86400

-- `_mutate` of the object that is cached and returned by `_load_plan_settings`.
abbrev pub set_cached : PersistedPlanSettings → Step (Unit {0})
set_cached st s = (returned tt, record s { cache = some st })

-- `duration_days if duration_days and duration_days > 0 else trial.duration_days or 7`
abbrev pub trial_days : Option ℤ → PlanTrialState → ℕ
trial_days (some (pos (suc n))) trial = suc n
trial_days other trial = if ltb 0 trial.duration_days then trial.duration_days else 7

abbrev pub text_leb : Text → Text → Bool
text_leb [] t = true
text_leb (c ∷ s) [] = false
text_leb (c ∷ s) (d ∷ t) = if ltb c d then true else (if ltb d c then false else text_leb s t)

-- A text put into a sorted list, unless it is there.
unfoldable pub sorted_insert : Text → List Text → List Text
sorted_insert t [] = t ∷ []
sorted_insert t (s ∷ ss) =
    let rest = sorted_insert t ss in
    if text_eq t s then s ∷ ss else (if text_leb t s then t ∷ s ∷ ss else s ∷ rest)

-- `sorted(set(texts))`
unfoldable pub sorted_set : List Text → List Text
sorted_set [] = []
sorted_set (t ∷ ts) = sorted_insert t (sorted_set ts)

module _ (lib : Library) (env : PlanEnv) where
  abbrev pub expiry_input : Option Text → Option (Option ℕ)
  expiry_input none = some none
  expiry_input (some []) = some none
  expiry_input (some (c ∷ s)) = elim (lib.parse_iso (c ∷ s)) [
    | none ↦ none
    | some t ↦ some (some t)
  ]

  -- `current_updated_at != expected_updated_at`, if an instant is expected.
  abbrev pub is_stale : Option Text → Option PersistedPlanSettings → Bool
  is_stale none existing = false
  is_stale (some expected) none = true
  is_stale (some expected) (some st) = not (text_eq (lib.iso st.updated_at) expected)

  abbrev pub updated_settings :
      ℕ → PlanUpdate → Option ℕ → Quota → Option PersistedPlanSettings → PersistedPlanSettings
  updated_settings now u expires quota existing = record {
    plan_tier = normalize_plan_tier lib (string u.plan_tier);
    entitlements = cleaned u.entitlements;
    quota = quota;
    expires_at = expires;
    updated_at = now;
    updated_by = normalize_optional u.updated_by;
    change_note = normalize_optional u.change_note;
    checkout_requested = checkout_after u existing;
    memory_chat = memory_flag (flags_json u.memory_flags);
    trial_state = trial_of existing;
  }

  -- `update_plan_context`
  unfoldable pub update_plan_context : ℕ → Bool → PlanUpdate → Step PlanContext
  update_plan_context now written u = do
    expires ← or_raise (expiry_input u.expires_at) invalid
    base ← base_quota_for_tier lib (normalize_plan_tier lib (string u.plan_tier))
    quota ← or_raise (apply_quota_overrides lib true base u.quota) invalid
    existing ← load_plan_settings lib now false
    raise_if (is_stale u.expected_updated_at existing) conflict
    store_plan_settings lib written (updated_settings now u expires quota existing)
    load_plan_settings lib now true
    build_plan_context lib env now no_headers

  -- The settings from which a first trial starts.
  abbrev pub bootstrap_settings : ℕ → Option Text → PlanContext → PersistedPlanSettings
  bootstrap_settings now by current = record {
    plan_tier = normalize_plan_tier lib (string current.base_tier);
    entitlements = sorted_set current.entitlements;
    quota = current.quota;
    expires_at = current.expires_at;
    updated_at = now;
    updated_by = some (or_default (normalize_optional by) (codes "trial-bootstrap"));
    change_note = some (codes "trial_bootstrap");
    checkout_requested = false;
    memory_chat = current.memory_chat_enabled;
    trial_state = no_trial;
  }

  abbrev pub bootstrap : ℕ → Bool → Option Text → Step PersistedPlanSettings
  bootstrap now written by = do
    current ← build_plan_context lib env now no_headers
    store_plan_settings lib written (bootstrap_settings now by current)
    pure (bootstrap_settings now by current)

  abbrev pub present :
      ℕ → Bool → Option Text → Option PersistedPlanSettings → Step PersistedPlanSettings
  present now written by none = bootstrap now written by
  present now written by (some st) = pure st

  abbrev pub with_trial :
      ℕ → Option Text → Text → Option ℤ → PersistedPlanSettings → PersistedPlanSettings
  with_trial now by target duration st = record st {
    trial_state = record {
      tier = target;
      duration_days = trial_days duration st.trial_state;
      started_at = some now;
      ends_at = some (now + day * trial_days duration st.trial_state);
      used = true;
    };
    updated_at = now;
    updated_by = normalize_optional by;
    change_note = some (codes "trial_started");
  }

  -- `start_plan_trial`; `first` and `written` say whether the write of the first settings and that of
  -- the trial succeed.
  unfoldable pub start_plan_trial :
      ℕ → Bool → Bool → Option Text → Text → Option ℤ → Step PlanContext
  start_plan_trial now first written by target duration = do
    loaded ← load_plan_settings lib now false
    settings ← present now first by loaded
    raise_if (is_active now settings.trial_state) invalid
    raise_if settings.trial_state.used invalid
    set_cached (with_trial now by target duration settings)
    store_plan_settings lib written (with_trial now by target duration settings)
    build_plan_context lib env now no_headers

  abbrev pub expiry_text : Option PersistedPlanSettings → Option Text
  expiry_text none = none
  expiry_text (some st) = elim st.expires_at [ none ↦ none | some t ↦ some (lib.iso t) ]

  abbrev pub memory_fields : Option PersistedPlanSettings → Option Fields
  memory_fields none = none
  memory_fields (some st) = some (field (codes "chat") (flag st.memory_chat) end)

  -- The quota of the settings if they have the tier, or that of the tier.
  abbrev pub checkout_quota : Text → Option PersistedPlanSettings → Step Quota
  checkout_quota target none = base_quota_for_tier lib target
  checkout_quota target (some st) =
      if text_eq st.plan_tier target then pure st.quota else base_quota_for_tier lib target

  abbrev pub checkout_update :
      Text
      → Option Text
      → Option Text
      → Option PersistedPlanSettings
      → List Text
      → Quota
      → PlanUpdate
  checkout_update target by remark existing base quota = record {
    plan_tier = target;
    entitlements = sorted_set (base ++ persisted_entitlements existing);
    quota = quota_fields quota;
    expires_at = expiry_text existing;
    updated_by = by;
    change_note = remark;
    trigger_checkout = false;
    force_checkout_requested = some false;
    memory_flags = memory_fields existing;
    expected_updated_at = none;
  }

  -- `apply_checkout_upgrade`
  unfoldable pub apply_checkout_upgrade :
      ℕ → Bool → Text → Option Text → Option Text → Step PlanContext
  apply_checkout_upgrade now written target by remark = do
    existing ← load_plan_settings lib now false
    base ← base_entitlements_for_tier lib target
    quota ← checkout_quota target existing
    update_plan_context now written (checkout_update target by remark existing base quota)

  abbrev pub cleared_update : Option Text → Option Text → PersistedPlanSettings → PlanUpdate
  cleared_update by remark st = record {
    plan_tier = st.plan_tier;
    entitlements = st.entitlements;
    quota = quota_fields st.quota;
    expires_at = expiry_text (some st);
    updated_by = if nonempty (or_default by []) then by else st.updated_by;
    change_note = remark;
    trigger_checkout = false;
    force_checkout_requested = some false;
    memory_flags = memory_fields (some st);
    expected_updated_at = none;
  }

  abbrev pub clear_existing :
      ℕ → Bool → Option Text → Option Text → Option PersistedPlanSettings → Step PlanContext
  clear_existing now written by remark none = build_plan_context lib env now no_headers
  clear_existing now written by remark (some st) =
      update_plan_context now written (cleared_update by remark st)

  -- `clear_checkout_requested`
  unfoldable pub clear_checkout_requested : ℕ → Bool → Option Text → Option Text → Step PlanContext
  clear_checkout_requested now written by remark = do
    existing ← load_plan_settings lib now false
    clear_existing now written by remark existing
