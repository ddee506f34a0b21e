-- ===== src/PlanSettings/Restart.antt =====
-- Settings after a restart, and an update that is stale.
use ko_finance.Common.{ℕ, Json, string, Option, some, Bool, true, false, ◌≡◌, refl, ◌≢◌, arith}
use ko_finance.PlanConfig.{Quota}
use ko_finance.PlanSettings.{
  Library, PersistedPlanSettings, normalize_plan_tier, apply_quota_overrides,
}
use ko_finance.PlanSettings.Exec.{PlanState, Outcome, returned, raised, invalid}
use ko_finance.PlanSettings.Disk.{base_quota_for_tier, load_plan_settings, store_plan_settings}
use ko_finance.PlanSettings.Context.{PlanEnv, PlanContext}
use ko_finance.PlanSettings.Changes.{PlanUpdate, update_plan_context, expiry_input, is_stale}
use ko_finance.PlanSettings.Hoare.{
  Post, Hoare, bind, knowing, or_raise_then, OfSettings, base_quota_keeps,
}
use ko_finance.PlanSettings.Readback.{Reads, Storable, hydrate-settings_fields}
use ko_finance.PlanSettings.Held.{load_cached}
use ko_finance.PlanSettings.Trial.{change, restart}

module _ (lib : Library) (env : PlanEnv) where
  -- A restart loses no settings: settings whose fields are read back as they are written, and that have
  -- been stored, are loaded by a process that starts afterwards, if it can read the plan config's quota
  -- of their tier, and if Python parses a date that it has printed to the same date.
  pub load-store :
      (reads : Reads lib) (now : ℕ) (reload : Bool) (st : PersistedPlanSettings) (s : PlanState)
      (q : Quota)
      → Storable lib st
      → (base_quota_for_tier lib st.plan_tier
          (change lib env restart (store_plan_settings lib true st s).1)).0
        ≡ returned q
      → (load_plan_settings lib now reload
          (change lib env restart (store_plan_settings lib true st s).1)).0
        ≡ returned (some st)
  unfolding load_plan_settings store_plan_settings change
  load-store reads now reload st s q ok base =
      rw
        (
          load_plan_settings,
          hydrate-settings_fields lib reads now st q
              (change lib env restart (store_plan_settings lib true st s).1) ok base,
        )
        refl

  -- The settings in memory and on disk.
  abbrev Rests :
      PersistedPlanSettings → Option Json → Option PersistedPlanSettings → Option Json → Type 0
  Rests st file cache f = (cache ≡ some st) × (f ≡ file)

  load_Rests :
      (now : ℕ) (st : PersistedPlanSettings) (file : Option Json)
      → Hoare
          (OfSettings (Rests st file))
          (load_plan_settings lib now false)
          (λ o s. (o ≡ some st) × OfSettings (Rests st file) s)
          (OfSettings (Rests st file))
  load_Rests now st file = record { run = λ s p. rw (load_cached lib st now s p.0) (refl, p) }

  update_refused :
      (now : ℕ) (written : Bool) (u : PlanUpdate) (st : PersistedPlanSettings) (file : Option Json)
      → is_stale lib env u.expected_updated_at (some st) ≡ true
      → Hoare
          (OfSettings (Rests st file))
          (update_plan_context lib env now written u)
          (λ _ _. ⊥)
          (OfSettings (Rests st file))
  unfolding update_plan_context
  update_refused now written u st file stale =
      or_raise_then (λ s p. p) (expiry_input lib env u.expires_at) invalid
        λ expires _.
          bind (base_quota_keeps lib (Rests st file) (normalize_plan_tier lib (string u.plan_tier)))
            λ base.
              or_raise_then (λ s p. p) (apply_quota_overrides lib true base u.quota) invalid
                λ quota _. bind (load_Rests now st file) λ existing.
                  knowing (λ s p. p.0) λ same. rw same (rw stale (record { run = λ s p. p.1 }))

  refused :
      (st : PersistedPlanSettings) (file : Option Json) (r : Outcome PlanContext × PlanState)
      → Post (λ _ _. ⊥) (OfSettings (Rests st file)) r
      → ((c : PlanContext) → r.0 ≢ returned c) × (r.1.cache ≡ some st) × (r.1.file ≡ file)
  refused st file (returned c, s) h = absurd h
  refused st file (raised e, s) h = (λ c eq. ground (arith, eq), h.0, h.1)

  -- A stale update is refused: with settings in memory whose instant is not the one that the caller
  -- expects, `update_plan_context` raises, and the settings in memory and on disk are as they were.
  pub update_plan_context_stale :
      (now : ℕ) (written : Bool) (u : PlanUpdate) (st : PersistedPlanSettings) (s : PlanState)
      → s.cache ≡ some st
      → is_stale lib env u.expected_updated_at (some st) ≡ true
      → let r = update_plan_context lib env now written u s in
        ((c : PlanContext) → r.0 ≢ returned c) × (r.1.cache ≡ some st) × (r.1.file ≡ s.file)
  update_plan_context_stale now written u st s held stale =
      refused st s.file (update_plan_context lib env now written u s)
        ((update_refused now written u st s.file stale).run s (held, refl))
