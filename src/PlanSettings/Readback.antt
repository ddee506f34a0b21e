-- ===== src/PlanSettings/Readback.antt =====
-- Settings are read from the file as they were written.
use ko_finance.Common.{
  ℕ, ◌<◌, suc, zero, Text, text_eq, nonempty, Fresh, Tidy, first_texts_of_Fresh, map, string,
  number, Bool, object, field_of, truthy, to_int, ℤ, pos, negsuc, ltb_ℤ, Option, none, some, true,
  false, List, [], ◌∷◌, ◌≡◌, refl, ap, arith,
}
use ko_finance.JsonStore.{optional_text, optional}
use ko_finance.Payments.Contexts.{normalize_optional}
use ko_finance.PlanConfig.{Quota, quota_fields, texts_items, items_list, iterate, limit_json}
use ko_finance.PlanConfig.Normal.{NormalQuota, Natural}
use ko_finance.PlanSettings.{
  Library, PersistedPlanSettings, PlanTrialState, normalize_plan_tier, parse_iso_datetime,
  parse_trial_state, trial_fields, settings_fields, date_json, coerce_optional_int, coerce_bool,
  override_limit, apply_quota_overrides, quota_overrides, days_of,
}
use ko_finance.PlanSettings.Exec.{PlanState, returned}
use ko_finance.PlanSettings.Disk.{base_quota_for_tier, hydrate_settings, item_text}

-- `_parse_iso_datetime` reads what `isoformat` writes, which is never empty.
abbrev pub Reads : Library → Type 0
Reads lib = (t : ℕ) → (lib.parse_iso (lib.iso t) ≡ some t) × (nonempty (lib.iso t) ≡ true)

-- A tier's text that is read as that tier.
abbrev pub IsTier : Library → Text → Type 0
IsTier lib tier = normalize_plan_tier lib (string tier) ≡ tier

-- Settings that are read back as they are written.
abbrev pub Storable : Library → PersistedPlanSettings → Type 0
Storable lib st =
    IsTier lib st.plan_tier
    × Tidy st.entitlements
    × NormalQuota st.quota
    × (normalize_optional st.updated_by ≡ st.updated_by)
    × (normalize_optional st.change_note ≡ st.change_note)
    × IsTier lib st.trial_state.tier
    × (0 < st.trial_state.duration_days)

days_read : (n : ℕ) → 0 < n → days_of (some (number (pos n))) ≡ n
unfolding to_int
days_read zero h = absurd (omega (arith, h))
days_read (suc n) h = refl

module _ (lib : Library) where
  limit_read :
      (strict : Bool) (base limit : Option ℤ)
      → Natural limit
      → override_limit lib strict base (some (limit_json limit)) ≡ some limit
  unfolding coerce_optional_int
  limit_read strict base none h = refl
  limit_read strict base (some (pos n)) h =
      let e : ltb_ℤ (pos n) (pos 0) ≡ false = ground arith in rw e refl
  limit_read strict base (some (negsuc n)) h = absurd h

  -- A quota overrides every field of another.
  pub apply-quota_fields :
      (strict : Bool) (base q : Quota)
      → NormalQuota q
      → apply_quota_overrides lib strict base (quota_fields q) ≡ some q
  unfolding apply_quota_overrides quota_fields field_of text_eq coerce_bool
  apply-quota_fields strict base q (c, r, p) =
      rw
        (
          limit_read strict base.chat q.chat c,
          limit_read strict base.rag q.rag r,
          limit_read strict base.peer q.peer p,
        )
        refl

  text_read : (o : Option Text) → optional_text lib.show (some (optional o)) ≡ normalize_optional o
  unfolding normalize_optional
  text_read none = refl
  text_read (some s) = refl

  texts_read :
      (seen ts : List Text)
      → Fresh seen ts
      → map (item_text lib.show) (items_list (texts_items ts)) ≡ ts
  unfolding texts_items items_list
  texts_read seen [] h = refl
  texts_read seen (t ∷ ts) (s, n, m, h) = rw (s, texts_read (t ∷ seen) ts h) refl

module _ (lib : Library) (reads : Reads lib) where
  iso_read :
      (s : Text) (t : ℕ)
      → lib.parse_iso s ≡ some t
      → nonempty s ≡ true
      → parse_iso_datetime lib (string s) ≡ some (some t)
  unfolding parse_iso_datetime
  iso_read [] t h n = absurd (ground (arith, n))
  iso_read (c ∷ s) t h n = ap some h

  date_read : (d : Option ℕ) → parse_iso_datetime lib (date_json lib d) ≡ some d
  unfolding parse_iso_datetime truthy
  date_read none = refl
  date_read (some t) = iso_read (lib.iso t) t (reads t).0 (reads t).1

  trial_read :
      (t : PlanTrialState)
      → IsTier lib t.tier
      → 0 < t.duration_days
      → parse_trial_state lib (some (object (trial_fields lib t))) ≡ some t
  unfolding parse_trial_state trial_fields field_of text_eq truthy
  trial_read t tier days =
      rw (tier, days_read t.duration_days days, date_read t.started_at, date_read t.ends_at) refl

  pub hydrate-settings_fields :
      (now : ℕ) (st : PersistedPlanSettings) (q : Quota) (s : PlanState)
      → Storable lib st
      → (base_quota_for_tier lib st.plan_tier s).0 ≡ returned q
      → hydrate_settings lib now (settings_fields lib st) s
        ≡ (returned st, (base_quota_for_tier lib st.plan_tier s).1)
  unfolding hydrate_settings settings_fields field_of text_eq iterate quota_overrides truthy
  hydrate-settings_fields now st q s (tier, tidy, quota, by, remark, trial, days) base =
      rw
        (
          tier,
          base,
          apply-quota_fields lib false q st.quota quota,
          trial_read st.trial_state trial days,
          date_read st.expires_at,
          iso_read (lib.iso st.updated_at) st.updated_at (reads st.updated_at).0
              (reads st.updated_at).1,
          text_read lib st.updated_by,
          text_read lib st.change_note,
          by,
          remark,
          texts_read lib [] st.entitlements tidy,
          first_texts_of_Fresh [] st.entitlements tidy,
        )
        refl
