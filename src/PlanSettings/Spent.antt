-- ===== src/PlanSettings/Spent.antt =====
-- Settings whose trial has been used, in memory and on disk, are loaded with a used trial.
use ko_finance.Common.{
  ℕ, Text, codes, text_eq, field_of, truthy, Json, null, flag, number, real, string, array, object,
  Fields, Option, none, some, Bool, true, false, is_some, not, ◌&&◌, ◌≡◌, arith, Bool-cases,
  Option-cases, inl, inr,
}
use mathlib.Core.Path.{subst, sym}
use ko_finance.PlanConfig.{iterate, value_of}
use ko_finance.PlanSettings.{
  Library, PersistedPlanSettings, PlanTrialState, trial_built, parse_trial_state, trial_fields,
  settings_fields, parse_iso_datetime, normalize_plan_tier, quota_overrides, apply_quota_overrides,
}
use ko_finance.PlanSettings.Exec.{PlanState, crashed, returned, ◌>>=◌}
use ko_finance.PlanSettings.Disk.{
  hydrate_settings, read_payload, remember, load_plan_settings, store_plan_settings,
}
use ko_finance.PlanSettings.Context.{trial_of}
use ko_finance.PlanSettings.Hoare.{
  Post, Hoare, bind, Anything, or_raise_then, pure_then, OfSettings, base_quota_keeps,
}

module _ (lib : Library) where
  -- The trial of a settings file has been used, whatever else the file holds.
  abbrev pub SpentFile : Option Json → Type 0
  SpentFile none = ⊥
  SpentFile (some (object fs)) =
      (t : PlanTrialState)
      → parse_trial_state lib (field_of (codes "trial") fs) ≡ some t
      → t.used ≡ true
  SpentFile (some v) = Unit

  abbrev pub SpentSettings : Option PersistedPlanSettings → Type 0
  SpentSettings none = Unit
  SpentSettings (some st) = st.trial_state.used ≡ true

  abbrev pub Spent : Option PersistedPlanSettings → Option Json → Type 0
  Spent cache file = SpentSettings cache × SpentFile file

  -- What is known of settings that have been loaded.
  abbrev pub Used : Option PersistedPlanSettings → PlanState → Type 0
  Used none s = ⊥
  Used (some st) s = (st.trial_state.used ≡ true) × OfSettings Spent s

  trial_used :
      (tier : Text) (days : ℕ) (used : Bool) (a b : Option (Option ℕ)) (t : PlanTrialState)
      → used ≡ true
      → trial_built lib tier days used a b ≡ some t
      → t.used ≡ true
  trial_used tier days used (some a) (some b) t h eq = ground arith
  trial_used tier days used none b t h eq = absurd (ground arith)
  trial_used tier days used (some a) none t h eq = absurd (ground arith)

  -- Settings whose trial is used are written to a spent file.
  pub written_Spent :
      (st : PersistedPlanSettings)
      → st.trial_state.used ≡ true
      → SpentFile (some (object (settings_fields lib st)))
  unfolding settings_fields parse_trial_state trial_fields field_of text_eq truthy
  written_Spent st h t eq =
      trial_used (normalize_plan_tier lib (string st.trial_state.tier)) _ st.trial_state.used _ _ t
        h eq

  pub weak : (s : PlanState) → OfSettings Spent s → OfSettings Spent s
  weak s p = p

  hydrate_keeps :
      (now : ℕ) (fs : Fields)
      → Hoare
          (OfSettings Spent)
          (hydrate_settings lib now fs)
          (λ st s.
            (parse_trial_state lib (field_of (codes "trial") fs) ≡ some st.trial_state)
            × OfSettings Spent s)
          (OfSettings Spent)
  unfolding hydrate_settings
  hydrate_keeps now fs =
      or_raise_then weak (iterate (value_of (codes "entitlements") fs)) crashed λ items _.
        bind (base_quota_keeps lib Spent (normalize_plan_tier lib (value_of (codes "planTier") fs)))
          λ base.
            or_raise_then weak (quota_overrides (value_of (codes "quota") fs)) crashed
              λ overrides _.
                or_raise_then weak (apply_quota_overrides lib false base overrides) crashed
                  λ quota _.
                    or_raise_then weak (parse_trial_state lib (field_of (codes "trial") fs)) crashed
                      λ trial read.
                        or_raise_then weak
                          (parse_iso_datetime lib (value_of (codes "expiresAt") fs)) crashed
                          λ expires _.
                            or_raise_then weak
                              (parse_iso_datetime lib (value_of (codes "updatedAt") fs)) crashed
                              λ updated _. pure_then _ λ s p. (read, p)

  hydrated_Used :
      (now : ℕ) (fs : Fields)
      → SpentFile (some (object fs))
      → Hoare (OfSettings Spent) (hydrate_settings lib now fs >>= remember) Used (OfSettings Spent)
  hydrated_Used now fs spent = bind (hydrate_keeps now fs) λ st. record {
    run = λ s (read, p). (spent st.trial_state read, (spent st.trial_state read, p.1));
  }

  read-Used :
      (now : ℕ) (file : Option Json)
      → SpentFile file
      → Hoare (OfSettings Spent) (read_payload lib now file) Used (OfSettings Spent)
  read-Used now none spent = absurd spent
  read-Used now (some (object fs)) spent = hydrated_Used now fs spent
  read-Used now (some null) spent = record { run = λ s p. p }
  read-Used now (some (flag b)) spent = record { run = λ s p. p }
  read-Used now (some (number n)) spent = record { run = λ s p. p }
  read-Used now (some (real n f)) spent = record { run = λ s p. p }
  read-Used now (some (string t)) spent = record { run = λ s p. p }
  read-Used now (some (array vs)) spent = record { run = λ s p. p }

  pub load-Used :
      (now : ℕ) (reload : Bool)
      → Hoare (OfSettings Spent) (load_plan_settings lib now reload) Used (OfSettings Spent)
  unfolding load_plan_settings
  load-Used now reload = record { run = λ s p. held s p }
    where
      kept :
          (s : PlanState)
          → OfSettings Spent s
          → is_some s.cache ≡ true
          → Post Used (OfSettings Spent) (returned s.cache, s)
      kept s p e = elim (Option-cases s.cache) [
        | inl f ↦ absurd (ground (arith, e, f))
        | inr (st, f) ↦
            subst (λ (c : Option PersistedPlanSettings). Used c s) (sym f)
              (subst SpentSettings f p.0, p)
      ]

      held :
          (s : PlanState)
          → OfSettings Spent s
          → Post Used (OfSettings Spent) (load_plan_settings lib now reload s)
      held s p = elim (Bool-cases (is_some s.cache && not reload)) [
        | inl e ↦ rw (load_plan_settings, e) (kept s p (ground (arith, e)))
        | inr e ↦ rw (load_plan_settings, e) ((read-Used now s.file p.1).run s p)
      ]

  pub store_Spent :
      (written : Bool) (st : PersistedPlanSettings)
      → st.trial_state.used ≡ true
      → Hoare
          (OfSettings Spent)
          (store_plan_settings lib written st)
          (λ _. OfSettings Spent)
          (OfSettings Spent)
  unfolding store_plan_settings
  store_Spent true st h = record { run = λ s p. (h, written_Spent st h) }
  store_Spent false st h = record { run = λ s p. p }

  pub store_spends :
      (written : Bool) (st : PersistedPlanSettings)
      → st.trial_state.used ≡ true
      → Hoare Anything (store_plan_settings lib written st) (λ _. OfSettings Spent) Anything
  unfolding store_plan_settings
  store_spends true st h = record { run = λ s p. (h, written_Spent st h) }
  store_spends false st h = record { run = λ s p. tt }

  pub Used-Spent :
      (o : Option PersistedPlanSettings) (s : PlanState) → Used o s → OfSettings Spent s
  Used-Spent none s p = absurd p
  Used-Spent (some st) s p = p.1

  pub trial_of-used :
      (o : Option PersistedPlanSettings) (s : PlanState) → Used o s → (trial_of o).used ≡ true
  trial_of-used none s p = absurd p
  trial_of-used (some st) s p = p.0
