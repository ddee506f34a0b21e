-- ===== src/PlanSettings.antt =====
-- services/plan_service.py: the persisted plan settings, their trial and quota overrides, and the plan
-- context of a request. A PlanQuota has the fields of a quota of the plan config.
use ko_finance.Common.{
  ℕ, Text, codes, strip, normalize, member, Json, null, flag, number, real, string, array, object,
  Items, nil, cons, Fields, end, field, field_of, to_int, int_of_text, truthy, ℤ, pos, ltb_ℤ,
  Option, none, some, Bool, true, false, ◌&&◌, ◌||◌, List, [], ◌∷◌, ltb, leb, ◌==◌, if◌then◌else◌,
  zero, suc,
}
use ko_finance.PlanTiers.{plan_tiers}
use ko_finance.PlanConfig.{Quota, quota_fields, texts_items, value_of, yes_texts, no_texts}
use ko_finance.JsonStore.{text_of, optional}
pub mod Exec
pub mod Disk
pub mod Context
pub mod Changes
pub mod Hoare
pub mod Spent
pub mod Trial
pub mod Sorted
pub mod Checkout
pub mod Cancel
pub mod Updating
pub mod Readback
pub mod Restart
pub mod Held
mod Tests

-- What comes from Python's library: `str` on JSON values, `isoformat` and `strptime` by the four
-- formats of `_parse_iso_datetime`.
pub record Library : Type 0 where
  pub show : Json → Text
  pub iso : ℕ → Text
  pub parse_iso : Text → Option ℕ

pub record PlanTrialState : Type 0 where
  pub tier : Text
  pub duration_days : ℕ
  pub started_at : Option ℕ
  pub ends_at : Option ℕ
  pub used : Bool

pub record PersistedPlanSettings : Type 0 where
  pub plan_tier : Text
  pub entitlements : List Text
  pub quota : Quota
  pub expires_at : Option ℕ
  pub updated_at : ℕ
  pub updated_by : Option Text
  pub change_note : Option Text
  pub checkout_requested : Bool
  pub memory_chat : Bool
  pub trial_state : PlanTrialState

abbrev pub no_trial : PlanTrialState
no_trial = record {
  tier = codes "pro";
  duration_days = 7;
  started_at = none;
  ends_at = none;
  used = false;
}

-- `started_at <= now < ends_at`
abbrev pub within : Option ℕ → Option ℕ → ℕ → Bool
within (some a) (some b) now = leb a now && ltb now b
within (some a) none now = false
within none b now = false

-- `is_active()`
unfoldable pub is_active : ℕ → PlanTrialState → Bool
is_active now t = within t.started_at t.ends_at now

-- A tier by its text, `free` if there is none of that name.
abbrev pub tier_named : Text → Text
tier_named s = if member s plan_tiers then s else codes "free"

-- What an `_coerce_optional_int` of an integer gives.
abbrev pub not_negative : Option ℤ → Option (Option ℤ)
not_negative none = none
not_negative (some n) = if ltb_ℤ n (pos 0) then none else some (some n)

abbrev pub none_texts : List Text
none_texts = codes "none" ∷ codes "null" ∷ []

abbrev pub limit_text : Text → Option (Option ℤ)
limit_text [] = some none
limit_text (c ∷ s) =
    if member (normalize (c ∷ s)) none_texts then some none else not_negative (int_of_text (c ∷ s))

-- `_coerce_bool`; `none` is its ValueError.
unfoldable pub coerce_bool : Json → Option Bool
coerce_bool (flag b) = some b
coerce_bool (number (pos n)) = if n == 0 then some false else (if n == 1 then some true else none)
coerce_bool (real (pos n) zero) =
    if n == 0 then some false else (if n == 1 then some true else none)
coerce_bool (string s) =
    if member (normalize s) yes_texts
    then some true
    else (if member (normalize s) no_texts then some false else none)
coerce_bool v = none

-- A coerced override: its error is raised if `strict`, and else the value so far stays.
abbrev pub settled {ℓ} : {A : Type ℓ} → Bool → A → Option A → Option A
settled strict old (some new) = some new
settled strict old none = if strict then none else some old

abbrev pub built_quota :
    Option (Option ℤ) → Option (Option ℤ) → Option (Option ℤ) → Option Bool → Option Quota
built_quota (some c) (some r) (some p) (some b) =
    some (record { chat = c; rag = r; self_check = b; peer = p })
built_quota c r p b = none

abbrev pub quota_keys : List Text
quota_keys =
    codes "chatRequestsPerDay"
    ∷ codes "ragTopK"
    ∷ codes "peerExportRowLimit"
    ∷ codes "selfCheckEnabled"
    ∷ []

abbrev pub starts : Text → Text → Bool
starts [] s = true
starts (c ∷ p) [] = false
starts (c ∷ p) (d ∷ s) = c == d && starts p s

-- `p in s`
abbrev pub includes : Text → Text → Bool
includes p [] = starts p []
includes p (c ∷ s) = starts p (c ∷ s) || includes p s

abbrev pub some_included : List Text → Text → Bool
some_included [] s = false
some_included (p ∷ ps) s = includes p s || some_included ps s

abbrev pub some_key : Items → Bool
some_key nil = false
some_key (cons (string s) vs) = member s quota_keys || some_key vs
some_key (cons v vs) = some_key vs

-- A stored quota as a mapping of overrides; `none` is the TypeError of `key in quota` or `quota[key]`.
unfoldable pub quota_overrides : Json → Option Fields
quota_overrides (object fs) = some fs
quota_overrides (array vs) = if some_key vs then none else some end
quota_overrides (string s) = if some_included quota_keys s then none else some end
quota_overrides v = if truthy v then none else some end

-- `int(duration) if duration is not None else 7`, and 7 for what is no positive integer.
abbrev pub positive_or_week : Option ℤ → ℕ
positive_or_week (some (pos (suc n))) = suc n
positive_or_week v = 7

abbrev pub days_of : Option Json → ℕ
days_of none = 7
days_of (some null) = 7
days_of (some v) = positive_or_week (to_int v)

abbrev pub is_true : Option Json → Bool
is_true (some (flag b)) = b
is_true v = false

-- `_parse_memory_flags`
abbrev pub memory_flag : Option Json → Bool
memory_flag (some (object fs)) = truthy (value_of (codes "chat") fs)
memory_flag v = false

module _ (lib : Library) where
  -- `_normalize_plan_tier`
  unfoldable pub normalize_plan_tier : Json → Text
  normalize_plan_tier v =
      if truthy v then tier_named (normalize (text_of lib.show v)) else codes "free"

  -- `_parse_iso_datetime`; the outer `none` is the TypeError of a value that is no text.
  unfoldable pub parse_iso_datetime : Json → Option (Option ℕ)
  parse_iso_datetime (string []) = some none
  parse_iso_datetime (string (c ∷ s)) = some (lib.parse_iso (c ∷ s))
  parse_iso_datetime v = if truthy v then none else some none

  abbrev pub trial_built :
      Text → ℕ → Bool → Option (Option ℕ) → Option (Option ℕ) → Option PlanTrialState
  trial_built tier days used (some a) (some b) =
      some (record { tier = tier; duration_days = days; started_at = a; ends_at = b; used = used })
  trial_built tier days used a b = none

  -- `_parse_trial_state`
  unfoldable pub parse_trial_state : Option Json → Option PlanTrialState
  parse_trial_state (some (object fs)) =
      trial_built (normalize_plan_tier (value_of (codes "tier") fs))
        (days_of (field_of (codes "durationDays") fs)) (truthy (value_of (codes "used") fs))
        (parse_iso_datetime (value_of (codes "startedAt") fs))
        (parse_iso_datetime (value_of (codes "endsAt") fs))
  parse_trial_state v = some no_trial

  -- `_coerce_optional_int`; the outer `none` is its ValueError.
  unfoldable pub coerce_optional_int : Json → Option (Option ℤ)
  coerce_optional_int null = some none
  coerce_optional_int (flag b) = none
  coerce_optional_int (number n) = not_negative (some n)
  coerce_optional_int (real n f) = not_negative (some n)
  coerce_optional_int v = limit_text (strip (text_of lib.show v))

  abbrev pub override_limit : Bool → Option ℤ → Option Json → Option (Option ℤ)
  override_limit strict old none = some old
  override_limit strict old (some v) = settled strict old (coerce_optional_int v)

  abbrev pub override_flag : Bool → Bool → Option Json → Option Bool
  override_flag strict old none = some old
  override_flag strict old (some v) = settled strict old (coerce_bool v)

  -- `_apply_quota_overrides`; `none` is the ValueError of an invalid override if `strict`.
  unfoldable pub apply_quota_overrides : Bool → Quota → Fields → Option Quota
  apply_quota_overrides strict base fs =
      built_quota (override_limit strict base.chat (field_of (codes "chatRequestsPerDay") fs))
        (override_limit strict base.rag (field_of (codes "ragTopK") fs))
        (override_limit strict base.peer (field_of (codes "peerExportRowLimit") fs))
        (override_flag strict base.self_check (field_of (codes "selfCheckEnabled") fs))

  abbrev pub date_json : Option ℕ → Json
  date_json none = null
  date_json (some t) = string (lib.iso t)

  -- `PlanTrialState.to_dict`
  unfoldable pub trial_fields : PlanTrialState → Fields
  trial_fields t = field (codes "tier") (string t.tier) (
      field (codes "durationDays") (number (pos t.duration_days)) (
        field (codes "startedAt") (date_json t.started_at)
          (field (codes "endsAt") (date_json t.ends_at) (field (codes "used") (flag t.used) end))))

  -- The payload that `_store_plan_settings` writes.
  unfoldable pub settings_fields : PersistedPlanSettings → Fields
  settings_fields s = field (codes "planTier") (string s.plan_tier) (
      field (codes "expiresAt") (date_json s.expires_at) (
        field (codes "entitlements") (array (texts_items s.entitlements)) (
          field (codes "quota") (object (quota_fields s.quota)) (
            field (codes "updatedAt") (string (lib.iso s.updated_at)) (
              field (codes "updatedBy") (optional s.updated_by) (
                field (codes "changeNote") (optional s.change_note) (
                  field (codes "checkoutRequested") (flag s.checkout_requested) (
                    field (codes "memoryFlags")
                      (object (field (codes "chat") (flag s.memory_chat) end))
                      (field (codes "trial") (object (trial_fields s.trial_state)) end)))))))))
