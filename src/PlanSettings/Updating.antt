-- ===== src/PlanSettings/Updating.antt =====
-- What an update of the plan settings leaves in memory, when settings are in memory before.
use ko_finance.PlanSettings.Held.{
  Holds, InMemory, With, cleaned-Tidy, entitlements-With, load-Holds, normalize_optional_idem,
  quota-With, reload-Holds, store_Written,
}
use ko_finance.Common.{
  ℕ, ◌<◌, text_keys, Text, Json, string, Option, some, Bool, true, false, List, [], ◌∷◌, ◌≡◌, refl,
}
use ko_finance.PlanConfig.{Quota}
use ko_finance.PlanConfig.Normal.{NormalQuota}
use ko_finance.PlanSettings.{
  Library, PersistedPlanSettings, is_active, normalize_plan_tier, apply_quota_overrides,
}
use ko_finance.PlanSettings.Context.{
  PlanEnv, PlanContext, no_headers, tier_text, build_plan_context, granted, trial_runs,
  effective_tier,
}
use ko_finance.PlanSettings.Changes.{
  PlanUpdate, updated_settings, update_plan_context, expiry_input, is_stale,
}
use ko_finance.PlanSettings.Hoare.{Hoare, Never, bind, pure_then, needing, knowing}
use ko_finance.PlanSettings.Readback.{Reads, IsTier, Storable, apply-quota_fields}

module _ (lib : Library) (env : PlanEnv) (st : PersistedPlanSettings) where
  -- What a request without headers sees of the settings.
  abbrev pub Shows : ℕ → PlanContext → Type 0
  Shows now c =
      (c.base_tier ≡ normalize_plan_tier lib (string (tier_text env (some st) [])))
      × (c.checkout_requested ≡ st.checkout_requested)
      × (c.trial ≡ st.trial_state)
      × (is_active now st.trial_state ≡ false → c.tier ≡ c.base_tier)

  pub granted-With :
      (J : Option PersistedPlanSettings → Option Json → Type 0) (active : Bool) (es : List Text)
      (tier : Text)
      → Hoare (With J) (granted lib env active es tier) (λ _. With J) Never
  granted-With J active [] tier = entitlements-With lib J tier
  granted-With J true (e ∷ es) tier = entitlements-With lib J tier
  granted-With J false (e ∷ es) tier = pure_then (e ∷ es) λ s p. p

  pub build-Holds :
      (now : ℕ)
      → NormalQuota st.quota
      → Hoare
          (Holds st)
          (build_plan_context lib env now no_headers)
          (λ c s. Shows now c × Holds st s)
          Never
  unfolding build_plan_context
  build-Holds now n = bind (load-Holds lib st now) λ settings.
      knowing (λ s p. p.0)
        λ same. rw same (
          needing (λ s p. p.1)
            (bind
              (granted-With (InMemory st) (trial_runs lib env now (some st) no_headers)
                st.entitlements (effective_tier lib env now (some st) no_headers))
              λ entitlements.
                bind
                  (quota-With lib (InMemory st) (effective_tier lib env now (some st) no_headers))
                  λ base.
                    rw (apply-quota_fields lib false base st.quota n)
                      (pure_then _ λ s p. ((refl, refl, refl, λ e. rw e refl), p.1))))

module _ (lib : Library) (env : PlanEnv) (reads : Reads lib) where
  -- An update with a quota that is not negative is stored and in memory afterwards.
  pub update-Holds :
      (now : ℕ) (u : PlanUpdate) (st : PersistedPlanSettings) (q : Quota) (expires : Option ℕ)
      → ((base : Quota) → apply_quota_overrides lib true base u.quota ≡ some q)
      → NormalQuota q
      → expiry_input lib env u.expires_at ≡ some expires
      → is_stale lib env u.expected_updated_at (some st) ≡ false
      → IsTier lib (normalize_plan_tier lib (string u.plan_tier))
      → IsTier lib st.trial_state.tier
      → 0 < st.trial_state.duration_days
      → Hoare
          (Holds st)
          (update_plan_context lib env now true u)
          (λ c s.
            Shows lib env (updated_settings lib env now u expires q (some st)) now c
            × Holds (updated_settings lib env now u expires q (some st)) s)
          Never
  unfolding update_plan_context
  update-Holds now u st q expires overrides n known current tier trial days =
      let new = updated_settings lib env now u expires q (some st) in
      let ok : Storable lib new = (
        tier,
        cleaned-Tidy u.entitlements,
        n,
        normalize_optional_idem u.updated_by,
        normalize_optional_idem u.change_note,
        trial,
        days,
      ) in
      rw known (
        bind (quota-With lib (InMemory st) (normalize_plan_tier lib (string u.plan_tier))) λ base.
          rw (overrides base) (
            needing (λ s p. p.1)
              (bind (load-Holds lib st now) λ existing.
                knowing (λ s p. p.0)
                  λ same. rw same (
                    rw current (
                      bind
                        (store_Written lib new (λ s. (some st ≡ some st) × Holds st s) λ s p. p.1.1)
                        λ _.
                          bind (reload-Holds lib reads new ok now)
                            λ again. build-Holds lib env new now n)))))
