-- ===== src/PlanSettings/Checkout.antt =====
-- What a paid checkout leaves of the plan settings.
use ko_finance.Common.{
  ℕ, Text, text_eq, strip, nonempty, member, first_texts, first_texts_of_Fresh, Tidy, map-strip,
  Fresh-Stripped, string, truthy, field_of, Option, none, some, true, false, ◌||◌, List, [], ◌∷◌,
  ◌++◌, ◌≡◌, refl, sym, ap, if◌then◌else◌, ◌∙◌, arith, Bool-cases, inl, inr,
}
use ko_finance.PlanConfig.{Quota}
use ko_finance.PlanConfig.Normal.{NormalQuota}
use ko_finance.PlanSettings.{Library, PersistedPlanSettings, normalize_plan_tier, is_active}
use ko_finance.PlanSettings.Exec.{PlanState, Outcome, returned, Step, ◌>>=◌}
use ko_finance.PlanSettings.Disk.{base_entitlements_for_tier, base_quota_for_tier, cleaned}
use ko_finance.PlanSettings.Context.{PlanEnv, PlanContext}
use ko_finance.PlanSettings.Changes.{
  sorted_set, update_plan_context, apply_checkout_upgrade, checkout_quota, checkout_update,
  expiry_input, updated_settings,
}
use ko_finance.PlanSettings.Hoare.{Hoare, Never, pure_then, concluding, returns}
use ko_finance.PlanSettings.Readback.{Reads, IsTier, Storable, apply-quota_fields}
use ko_finance.PlanSettings.Updating.{update-Holds}
use ko_finance.PlanSettings.Held.{Holds, InMemory, quota-With, entitlements-With, load_cached}
use ko_finance.PlanSettings.Sorted.{member-append, member-sorted_set, member-cleaned}

pub cleaned-Tidy_id : (ts : List Text) → Tidy ts → cleaned ts ≡ ts
cleaned-Tidy_id ts h =
    ap (first_texts []) (map-strip ts (Fresh-Stripped [] ts h)) ∙ first_texts_of_Fresh [] ts h

-- Settings after a paid checkout of `target`: those of before, with the tier and without the checkout
-- flag, and with the entitlements of both.
abbrev pub Upgraded : Text → List Text → PersistedPlanSettings → PersistedPlanSettings → Type 0
Upgraded target base st new =
    (new.plan_tier ≡ target)
    × (new.checkout_requested ≡ false)
    × (new.expires_at ≡ st.expires_at)
    × (new.memory_chat ≡ st.memory_chat)
    × (new.trial_state ≡ st.trial_state)
    × ((e : Text)
        → strip e ≡ e
        → nonempty e ≡ true
        → (member e base || member e st.entitlements) ≡ true
        → member e new.entitlements ≡ true)

module _ (lib : Library) (env : PlanEnv) (reads : Reads lib) where
  expiry_read_text :
      (s : Text) (t : ℕ)
      → lib.parse_iso s ≡ some t
      → nonempty s ≡ true
      → expiry_input lib env (some s) ≡ some (some t)
  expiry_read_text [] t h n = absurd (ground (arith, n))
  expiry_read_text (c ∷ s) t h n = rw (expiry_input, h) refl

  abbrev shown : Option ℕ → Option Text
  shown d = elim d [ none ↦ none | some t ↦ some (lib.iso t) ]

  pub expiry_read : (d : Option ℕ) → expiry_input lib env (shown d) ≡ some d
  expiry_read none = refl
  expiry_read (some t) = expiry_read_text (lib.iso t) t (reads t).0 (reads t).1

  checkout_quota-Holds :
      (st : PersistedPlanSettings) (target : Text)
      → NormalQuota st.quota
      → Hoare
          (Holds st)
          (checkout_quota lib env target (some st))
          (λ q s. NormalQuota q × Holds st s)
          Never
  checkout_quota-Holds st target n = elim (Bool-cases (text_eq st.plan_tier target)) [
    | inl e ↦ rw e (pure_then st.quota λ s p. (n, p))
    | inr e ↦ rw e (quota-With lib (InMemory st) target)
  ]

  -- The rest of an upgrade, once the settings and the entitlements of the tier are known.
  upgrade-Holds :
      (now : ℕ) (target : Text) (by remark : Option Text) (st : PersistedPlanSettings)
      (base : List Text) (q : Quota)
      → IsTier lib target
      → Storable lib st
      → NormalQuota q
      → Hoare
          (Holds st)
          (update_plan_context lib env now true
            (checkout_update lib env target by remark (some st) base q))
          (λ c s.
            (new : PersistedPlanSettings) × (s.cache ≡ some new)
            × (new.quota ≡ q)
            × Upgraded target base st new
            × (is_active now st.trial_state ≡ false → c.tier ≡ target))
          Never
  unfolding field_of text_eq truthy
  upgrade-Holds now target by remark st base q tier (_, tidy, _, _, _, trial, days) n =
      let u = checkout_update lib env target by remark (some st) base q in
      let new = updated_settings lib env now u st.expires_at q (some st) in
      concluding
        (update-Holds lib env reads now u st q st.expires_at
          (λ b. apply-quota_fields lib true b q n) n (expiry_read st.expires_at) refl
          (ap (λ t. normalize_plan_tier lib (string t)) tier) trial days)
        λ c s (shows, held). (
          new,
          held.0,
          refl,
          (tier, refl, refl, refl, refl, kept),
          λ idle. shows.3 idle ∙ shows.0 ∙ ap (λ t. normalize_plan_tier lib (string t)) tier ∙ tier,
        )
    where
      kept :
          (e : Text)
          → strip e ≡ e
          → nonempty e ≡ true
          → (member e base || member e st.entitlements) ≡ true
          → member e (cleaned (sorted_set (base ++ st.entitlements))) ≡ true
      kept e s n h =
          member-cleaned e (sorted_set (base ++ st.entitlements)) s n (
            member-sorted_set e (base ++ st.entitlements)
            ∙ member-append e base st.entitlements
            ∙ h)

  -- The quota that an upgrade takes, at the state that the entitlements of the tier leave.
  abbrev pub QuotaIs : Text → PersistedPlanSettings → PlanState → Quota → Type 0
  QuotaIs target st s q =
      (if text_eq st.plan_tier target
        then returned st.quota
        else (base_quota_for_tier lib target (base_entitlements_for_tier lib target s).1).0)
      ≡ returned q

  checkout_quota_lem :
      (target : Text) (st : PersistedPlanSettings) (s : PlanState)
      → (checkout_quota lib env target (some st) s).0 ≡ (
          if text_eq st.plan_tier target
          then returned st.quota
          else (base_quota_for_tier lib target s).0)
  checkout_quota_lem target st s = elim (Bool-cases (text_eq st.plan_tier target)) [
    | inl e ↦ rw e refl
    | inr e ↦ rw e refl
  ]

  abbrev priced :
      ℕ → Text → Option Text → Option Text → PersistedPlanSettings → List Text → Step PlanContext
  priced now target by remark st base = checkout_quota lib env target (some st) >>= λ q.
      update_plan_context lib env now true
        (checkout_update lib env target by remark (some st) base q)

  priced_lem :
      (now : ℕ) (target : Text) (by remark : Option Text) (st : PersistedPlanSettings)
      (base : List Text) (q : Quota) (s : PlanState)
      → (checkout_quota lib env target (some st) s).0 ≡ returned q
      → priced now target by remark st base s
        ≡ update_plan_context lib env now true
            (checkout_update lib env target by remark (some st) base q)
            (checkout_quota lib env target (some st) s).1
  priced_lem now target by remark st base q s h = rw (priced, h) refl

  upgrade_lem :
      (now : ℕ) (target : Text) (by remark : Option Text) (st : PersistedPlanSettings)
      (s : PlanState) (base : List Text)
      → s.cache ≡ some st
      → (base_entitlements_for_tier lib target s).0 ≡ returned base
      → apply_checkout_upgrade lib env now true target by remark s
        ≡ priced now target by remark st base (base_entitlements_for_tier lib target s).1
  unfolding apply_checkout_upgrade
  upgrade_lem now target by remark st s base held e =
      rw (apply_checkout_upgrade, load_cached lib st now s held, e) refl

  -- A paid checkout is applied: with a tier of the plan config, with settings in memory that are read
  -- back as they are written, with the plan config ready and a file that can be written, the call
  -- returns, and it leaves the settings with the paid tier, without the checkout flag, with the expiry,
  -- the memory flag and the trial that they had, and with the entitlements of the tier and of the
  -- settings of before; their quota is the one that they had if they had the tier already, and
  -- otherwise that of the tier; and the context that it returns has the paid tier unless a trial is
  -- running.
  pub apply_checkout_upgrade_lem :
      (now : ℕ) (target : Text) (by remark : Option Text) (st : PersistedPlanSettings)
      (s : PlanState)
      → IsTier lib target
      → Storable lib st
      → Holds st s
      → let r = apply_checkout_upgrade lib env now true target by remark s in
        (c : PlanContext) × (base : List Text) × (new : PersistedPlanSettings) × (r.0 ≡ returned c)
        × ((base_entitlements_for_tier lib target s).0 ≡ returned base)
        × (r.1.cache ≡ some new)
        × Upgraded target base st new
        × (is_active now st.trial_state ≡ false → c.tier ≡ target)
        × QuotaIs target st s new.quota
  apply_checkout_upgrade_lem now target by remark st s tier ok held =
      let granted = base_entitlements_for_tier lib target s in
      let (base, e, held') =
        returns (λ _. Holds st) granted ((entitlements-With lib (InMemory st) target).run s held) in
      let quota = checkout_quota lib env target (some st) granted.1 in
      let (q, known, (n, held2)) =
        returns (λ q s. NormalQuota q × Holds st s) quota
          ((checkout_quota-Holds st target ok.2).run granted.1 held') in
      let (c, answer, (new, memory, taken, upgraded, tier')) =
        returns
          (λ c s.
            (new : PersistedPlanSettings) × (s.cache ≡ some new)
            × (new.quota ≡ q)
            × Upgraded target base st new
            × (is_active now st.trial_state ≡ false → c.tier ≡ target))
          (update_plan_context lib env now true
            (checkout_update lib env target by remark (some st) base q) quota.1)
          ((upgrade-Holds now target by remark st base q tier ok n).run quota.1 held2) in
      let eq =
        upgrade_lem now target by remark st s base held.0 e
        ∙ priced_lem now target by remark st base q granted.1 known in
      (
        c,
        base,
        new,
        ap (λ (w : Outcome PlanContext × PlanState). w.0) eq ∙ answer,
        e,
        ap (λ (w : Outcome PlanContext × PlanState). w.1.cache) eq ∙ memory,
        upgraded,
        tier',
        sym (checkout_quota_lem target st granted.1) ∙ known ∙ ap returned (sym taken),
      )
