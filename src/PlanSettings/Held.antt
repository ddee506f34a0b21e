-- ===== src/PlanSettings/Held.antt =====
-- What the reads of plan settings in memory leave there.
use ko_finance.Common.{
  ℕ, lookup, text_keys, Values, insert-Values, lookup-Values, Option-cases, inl, inr, Text, strip,
  strip_idem, some_text, first_texts-Fresh, Tidy, Stripped, map, Json, object, Option, none, some,
  true, false, is_some, not, ◌&&◌, List, [], ◌∷◌, ◌≡◌, refl, ap, ◌∙◌, arith,
}
use mathlib.Core.Path.{subst, sym}
use ko_finance.Payments.Contexts.{normalize_optional}
use ko_finance.PlanConfig.{Config, TierConfig}
use ko_finance.PlanConfig.Store.{ConfigStore, load_plan_config, get_tier_config, tier_entry}
use ko_finance.PlanConfig.Normal.{NormalQuota}
use ko_finance.PlanConfig.Merge.{NormalConfig}
use ko_finance.PlanConfig.Updates.{tier_entry-Normal}
use ko_finance.PlanSettings.{Library, PersistedPlanSettings, settings_fields}
use ko_finance.PlanSettings.Exec.{PlanState, returned}
use ko_finance.PlanSettings.Disk.{
  quota_read, entitlements_read, base_entitlements_for_tier, base_quota_for_tier,
  load_plan_settings, store_plan_settings, read_payload, cleaned,
}
use ko_finance.PlanSettings.Hoare.{Post, Hoare, Never, returns}
use ko_finance.PlanSettings.Readback.{Reads, Storable, hydrate-settings_fields}

pub map-strip-Stripped : (ts : List Text) → Stripped (map strip ts)
map-strip-Stripped [] = tt
map-strip-Stripped (t ∷ ts) = (strip_idem t, map-strip-Stripped ts)

pub cleaned-Tidy : (ts : List Text) → Tidy (cleaned ts)
cleaned-Tidy ts = first_texts-Fresh [] (map strip ts) (map-strip-Stripped ts)

pub normalize_optional_idem :
    (o : Option Text) → normalize_optional (normalize_optional o) ≡ normalize_optional o
unfolding normalize_optional
normalize_optional_idem none = refl
normalize_optional_idem (some s) = again (strip s) (strip_idem s)
  where
    again : (t : Text) → strip t ≡ t → normalize_optional (some_text t) ≡ some_text t
    again [] h = refl
    again (c ∷ t) h = ap some_text h

-- The plan config is in memory and normal, and the remembered quotas are.
abbrev pub Ready : PlanState → Type 0
Ready s =
    (c : Config) × (s.config.cache ≡ some c) × NormalConfig c × Values NormalQuota s.base_quotas

-- A property of the settings in memory and on disk, in a state that is ready.
abbrev pub With : (Option PersistedPlanSettings → Option Json → Type 0) → PlanState → Type 0
With J s = J s.cache s.file × Ready s

abbrev pub InMemory : PersistedPlanSettings → Option PersistedPlanSettings → Option Json → Type 0
InMemory st cache file = cache ≡ some st

abbrev pub Holds : PersistedPlanSettings → PlanState → Type 0
Holds st = With (InMemory st)

get_cached :
    (show : Json → Text) (tier : Text) (s : ConfigStore) (c : Config)
    → s.cache ≡ some c
    → get_tier_config show tier s ≡ (some (tier_entry tier c), s)
unfolding get_tier_config load_plan_config
get_cached show tier s c h =
    subst
      (λ (o : Option Config).
        get_tier_config show tier (record { cache = o; file = s.file })
        ≡ (some (tier_entry tier c), record { cache = o; file = s.file }))
      (sym h) refl

quota_read_Ready :
    (tier : Text) (s : PlanState) (J : Option PersistedPlanSettings → Option Json → Type 0)
    (t : TierConfig) (c : ConfigStore)
    → NormalQuota t.quota
    → c ≡ s.config
    → With J s
    → Post (λ q s. NormalQuota q × With J s) Never (quota_read tier s (some t, c))
quota_read_Ready tier s J t c n same (h, (d, known, normal, quotas)) = (
  n,
  (
    h,
    (
      d,
      ap (λ (x : ConfigStore). x.cache) same ∙ known,
      normal,
      insert-Values NormalQuota tier t.quota s.base_quotas n quotas,
    ),
  ),
)

entitlements_read_Ready :
    (tier : Text) (s : PlanState) (J : Option PersistedPlanSettings → Option Json → Type 0)
    (t : TierConfig) (c : ConfigStore)
    → c ≡ s.config
    → With J s
    → Post (λ _. With J) Never (entitlements_read tier s (some t, c))
entitlements_read_Ready tier s J t c same (h, (d, known, normal, quotas)) =
    (h, (d, ap (λ (x : ConfigStore). x.cache) same ∙ known, normal, quotas))

module _ (lib : Library) (J : Option PersistedPlanSettings → Option Json → Type 0) where
  pub quota-With :
      (tier : Text)
      → Hoare (With J) (base_quota_for_tier lib tier) (λ q s. NormalQuota q × With J s) Never
  unfolding base_quota_for_tier
  quota-With tier = record { run = λ s p. read s p }
    where
      read :
          (s : PlanState)
          → With J s
          → Post (λ q s. NormalQuota q × With J s) Never (base_quota_for_tier lib tier s)
      read s p = elim (Option-cases (lookup tier s.base_quotas)) [
        | inr (q, e) ↦
            rw (base_quota_for_tier, e) (lookup-Values NormalQuota tier s.base_quotas q p.1.3 e, p)
        | inl e ↦
            let (c, known, normal, _) = p.1 in
            rw (base_quota_for_tier, e, get_cached lib.show tier s.config c known)
              (quota_read_Ready tier s J (tier_entry tier c) s.config
                (tier_entry-Normal tier c normal).2 refl p)
      ]

  pub entitlements-With :
      (tier : Text) → Hoare (With J) (base_entitlements_for_tier lib tier) (λ _. With J) Never
  unfolding base_entitlements_for_tier
  entitlements-With tier = record { run = λ s p. read s p }
    where
      read :
          (s : PlanState)
          → With J s
          → Post (λ _. With J) Never (base_entitlements_for_tier lib tier s)
      read s p = elim (Option-cases (lookup tier s.base_entitlements)) [
        | inr (q, e) ↦ rw (base_entitlements_for_tier, e) p
        | inl e ↦
            let (c, known, normal, _) = p.1 in
            rw (base_entitlements_for_tier, e, get_cached lib.show tier s.config c known)
              (entitlements_read_Ready tier s J (tier_entry tier c) s.config refl p)
      ]

module _ (lib : Library) (st : PersistedPlanSettings) where
  pub load_cached :
      (now : ℕ) (s : PlanState)
      → s.cache ≡ some st
      → load_plan_settings lib now false s ≡ (returned (some st), s)
  unfolding load_plan_settings
  load_cached now s h =
      let e : (is_some s.cache && not false) ≡ true = ground (arith, h) in
      rw (load_plan_settings, e) (ap (λ (c : Option PersistedPlanSettings). (returned c, s)) h)

  pub load-Holds :
      (now : ℕ)
      → Hoare
          (Holds st)
          (load_plan_settings lib now false)
          (λ o s. (o ≡ some st) × Holds st s)
          Never
  load-Holds now = record { run = λ s p. rw (load_cached now s p.0) (refl, p) }

  -- The settings on disk, in a state that is ready.
  abbrev Written : PlanState → Type 0
  Written s = (s.file ≡ some (object (settings_fields lib st))) × Ready s

  pub store_Written :
      (P : PlanState → Type 0)
      → ((s : PlanState) → P s → Ready s)
      → Hoare P (store_plan_settings lib true st) (λ _. Written) Never
  unfolding store_plan_settings
  store_Written P ready = record { run = λ s p. (refl, ready s p) }

module _ (lib : Library) (reads : Reads lib) (st : PersistedPlanSettings)
    (ok : Storable lib st) where
  pub reload-Holds :
      (now : ℕ) → Hoare (Written lib st) (load_plan_settings lib now true) (λ _. Holds st) Never
  unfolding load_plan_settings
  reload-Holds now = record { run = λ s p. reloaded s p }
    where
      -- The quota of the tier is read with the settings still in the file only.
      hydrated :
          (s : PlanState)
          → Ready s
          → Post
              (λ _. Holds st)
              Never
              (read_payload lib now (some (object (settings_fields lib st))) s)
      hydrated s p =
          let (q, e, (n, (_, ready))) =
            returns (λ q s. NormalQuota q × With (λ _ _. Unit {0}) s)
              (base_quota_for_tier lib st.plan_tier s)
              ((quota-With lib (λ _ _. Unit {0}) st.plan_tier).run s (tt, p)) in
          rw (hydrate-settings_fields lib reads now st q s ok e) (refl, ready)

      reloaded :
          (s : PlanState)
          → Written lib st s
          → Post (λ _. Holds st) Never (load_plan_settings lib now true s)
      reloaded s (h, p) =
          let e : (is_some s.cache && not true) ≡ false = ground arith in
          rw (load_plan_settings, e)
            (subst (λ (f : Option Json). Post (λ _. Holds st) Never (read_payload lib now f s))
              (sym h) (hydrated s p))
