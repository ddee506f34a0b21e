-- ===== src/PlanSettings/Trial.antt =====
-- A trial is granted once: after a call that started it, no later call does.
use ko_finance.Common.{
  ℕ, Text, text_eq, string, ℤ, Option, none, some, Bool, true, false, List, [], ◌∷◌, ◌≡◌, ◌≢◌, refl,
  arith, Bool-cases, inl, inr,
}
use ko_finance.PlanConfig.Store.{clear_cache}
use ko_finance.PlanSettings.{
  Library, PersistedPlanSettings, is_active, normalize_plan_tier, apply_quota_overrides,
}
use ko_finance.PlanSettings.Exec.{
  PlanState, crashed, invalid, conflict, Outcome, returned, raised, Step,
}
use ko_finance.PlanSettings.Disk.{load_plan_settings}
use ko_finance.PlanSettings.Context.{
  PlanEnv, Headers, PlanContext, no_headers, build_plan_context, granted, trial_runs,
  persisted_entitlements, visible, effective_tier, settings_quota, header_quota,
}
use ko_finance.PlanSettings.Changes.{
  PlanUpdate, expiry_input, is_stale, updated_settings, update_plan_context, start_plan_trial,
  apply_checkout_upgrade, clear_checkout_requested, with_trial, set_cached, checkout_quota,
  clear_existing, present,
}
use ko_finance.PlanSettings.Hoare.{
  Post, Hoare, bind, any_call, Anything, or_raise_then, raise_if_then, pure_then, OfSettings,
  needing, base_quota_keeps, base_entitlements_keeps, returned-Post,
}
use ko_finance.PlanSettings.Spent.{
  Spent, weak, load-Used, store_Spent, store_spends, Used-Spent, trial_of-used,
}

module _ (lib : Library) (env : PlanEnv) where
  -- A call that leaves the trial used.
  abbrev Keeps : {A : Type 0} → Step A → Type 0
  Keeps m = Hoare (OfSettings (Spent lib)) m (λ _. OfSettings (Spent lib)) (OfSettings (Spent lib))

  granted-Keeps :
      (active : Bool) (es : List Text) (tier : Text) → Keeps (granted lib env active es tier)
  granted-Keeps active [] tier = base_entitlements_keeps lib (Spent lib) tier
  granted-Keeps true (e ∷ es) tier = base_entitlements_keeps lib (Spent lib) tier
  granted-Keeps false (e ∷ es) tier = pure_then (e ∷ es) λ s p. p

  build-Keeps : (now : ℕ) (h : Headers) → Keeps (build_plan_context lib env now h)
  unfolding build_plan_context
  build-Keeps now h = bind (load-Used lib now false) λ settings. needing (Used-Spent lib settings) (
      bind
        (granted-Keeps (trial_runs lib env now settings h)
          (persisted_entitlements (visible settings h)) (effective_tier lib env now settings h))
        λ entitlements.
          bind (base_quota_keeps lib (Spent lib) (effective_tier lib env now settings h)) λ base.
            or_raise_then (weak lib) (settings_quota lib env (visible settings h) base) crashed
              λ quota _.
                or_raise_then (weak lib) (header_quota lib env h.quota quota) crashed
                  λ last _. pure_then _ λ s p. p)

  update-Keeps :
      (now : ℕ) (written : Bool) (u : PlanUpdate)
      → Keeps (update_plan_context lib env now written u)
  unfolding update_plan_context
  update-Keeps now written u =
      or_raise_then (weak lib) (expiry_input lib env u.expires_at) invalid λ expires _.
        bind (base_quota_keeps lib (Spent lib) (normalize_plan_tier lib (string u.plan_tier)))
          λ base.
            or_raise_then (weak lib) (apply_quota_overrides lib true base u.quota) invalid
              λ quota _. bind (load-Used lib now false) λ existing. record {
                run = λ s p.
                    (raise_if_then (weak lib) (is_stale lib env u.expected_updated_at existing)
                        conflict
                        λ _.
                          bind
                            (store_Spent lib written
                              (updated_settings lib env now u expires quota existing)
                              (trial_of-used lib existing s p))
                            λ _. bind (load-Used lib now true) λ again.
                              needing (Used-Spent lib again) (build-Keeps now no_headers)).run
                      s (Used-Spent lib existing s p);
              }

  checkout_quota-Keeps :
      (target : Text) (o : Option PersistedPlanSettings) → Keeps (checkout_quota lib env target o)
  checkout_quota-Keeps target none = base_quota_keeps lib (Spent lib) target
  checkout_quota-Keeps target (some st) = elim (Bool-cases (text_eq st.plan_tier target)) [
    | inl e ↦ record { run = λ s p. rw e p }
    | inr e ↦ record { run = λ s p. rw e ((base_quota_keeps lib (Spent lib) target).run s p) }
  ]

  checkout-Keeps :
      (now : ℕ) (written : Bool) (target : Text) (by remark : Option Text)
      → Keeps (apply_checkout_upgrade lib env now written target by remark)
  unfolding apply_checkout_upgrade
  checkout-Keeps now written target by remark = bind (load-Used lib now false) λ existing.
      needing (Used-Spent lib existing) (
        bind (base_entitlements_keeps lib (Spent lib) target)
          λ base. bind (checkout_quota-Keeps target existing) λ quota. update-Keeps now written _)

  clear_existing-Keeps :
      (now : ℕ) (written : Bool) (by remark : Option Text) (o : Option PersistedPlanSettings)
      → Keeps (clear_existing lib env now written by remark o)
  clear_existing-Keeps now written by remark none = build-Keeps now no_headers
  clear_existing-Keeps now written by remark (some st) = update-Keeps now written _

  clear-Keeps :
      (now : ℕ) (written : Bool) (by remark : Option Text)
      → Keeps (clear_checkout_requested lib env now written by remark)
  unfolding clear_checkout_requested
  clear-Keeps now written by remark = bind (load-Used lib now false) λ existing.
      needing (Used-Spent lib existing) (clear_existing-Keeps now written by remark existing)

  -- With a used trial `start_plan_trial` raises, and writes nothing that unsets it.
  start_refuses :
      (now : ℕ) (first written : Bool) (by : Option Text) (target : Text) (duration : Option ℤ)
      → Hoare
          (OfSettings (Spent lib))
          (start_plan_trial lib env now first written by target duration)
          (λ _ _. ⊥)
          (OfSettings (Spent lib))
  unfolding start_plan_trial
  start_refuses now first written by target duration = bind (load-Used lib now false) (elim [
    | none ↦ record { run = λ s p. absurd p }
    | some st ↦ record {
      run = λ s p.
          (raise_if_then (weak lib) (is_active now st.trial_state) invalid λ _.
              raise_if_then (weak lib) st.trial_state.used invalid
                λ unused. absurd (ground (arith, unused, p.0))).run
            s p.1;
    }
  ])

  -- A trial that starts is used.
  start_spends :
      (now : ℕ) (first written : Bool) (by : Option Text) (target : Text) (duration : Option ℤ)
      → Hoare Anything
          (start_plan_trial lib env now first written by target duration)
          (λ _. OfSettings (Spent lib))
          Anything
  unfolding start_plan_trial
  start_spends now first written by target duration =
      bind (any_call (load_plan_settings lib now false)) λ loaded.
        bind (any_call (present lib env now first by loaded)) λ settings.
          raise_if_then (λ s p. tt) (is_active now settings.trial_state) invalid
            λ _.
              raise_if_then (λ s p. tt) settings.trial_state.used invalid
                λ _.
                  bind (any_call (set_cached (with_trial lib env now by target duration settings)))
                    λ _.
                      bind
                        (store_spends lib written
                          (with_trial lib env now by target duration settings) refl)
                        λ _. record {
                          run = λ s p.
                              forget (build_plan_context lib env now no_headers s)
                                ((build-Keeps now no_headers).run s p);
                        }
    where
      forget :
          (r : Outcome PlanContext × PlanState)
          → Post (λ _. OfSettings (Spent lib)) (OfSettings (Spent lib)) r
          → Post (λ _. OfSettings (Spent lib)) Anything r
      forget (returned a, s) h = h
      forget (raised e, s) h = tt

  -- What happens between two trials: the calls that change the settings, a request, and a restart,
  -- which drops what is kept in memory.
  pub data Change : Type 0 where
    update : ℕ → Bool → PlanUpdate → Change
    trial : ℕ → Bool → Bool → Option Text → Text → Option ℤ → Change
    upgrade : ℕ → Bool → Text → Option Text → Option Text → Change
    clear : ℕ → Bool → Option Text → Option Text → Change
    request : ℕ → Headers → Change
    restart : Change

  unfoldable pub change : Change → PlanState → PlanState
  change (update now written u) s = (update_plan_context lib env now written u s).1
  change (trial now first written by target duration) s =
      (start_plan_trial lib env now first written by target duration s).1
  change (upgrade now written target by remark) s =
      (apply_checkout_upgrade lib env now written target by remark s).1
  change (clear now written by remark) s =
      (clear_checkout_requested lib env now written by remark s).1
  change (request now h) s = (build_plan_context lib env now h s).1
  change restart s = record s {
    cache = none;
    base_entitlements = [];
    base_quotas = [];
    config = clear_cache s.config;
  }

  unfoldable pub changes : List Change → PlanState → PlanState
  changes [] s = s
  changes (c ∷ cs) s = changes cs (change c s)

  either_way :
      {A : Type 0} (Q : A → PlanState → Type 0) (r : Outcome A × PlanState)
      → ((a : A) (s : PlanState) → Q a s → OfSettings (Spent lib) s)
      → Post Q (OfSettings (Spent lib)) r
      → OfSettings (Spent lib) r.1
  either_way Q (returned a, s) f h = f a s h
  either_way Q (raised e, s) f h = h

  kept :
      {A : Type 0}
      → (m : Step A) → Keeps m
      → (s : PlanState) → OfSettings (Spent lib) s
      → OfSettings (Spent lib) (m s).1
  kept m k s p = either_way (λ _. OfSettings (Spent lib)) (m s) (λ a t h. h) (k.run s p)

  change_keeps :
      (c : Change) (s : PlanState) → OfSettings (Spent lib) s → OfSettings (Spent lib) (change c s)
  unfolding change
  change_keeps (update now written u) s p =
      kept (update_plan_context lib env now written u) (update-Keeps now written u) s p
  change_keeps (trial now first written by target duration) s p =
      either_way (λ _ _. ⊥) (start_plan_trial lib env now first written by target duration s)
        (λ a t h. absurd h) ((start_refuses now first written by target duration).run s p)
  change_keeps (upgrade now written target by remark) s p =
      kept (apply_checkout_upgrade lib env now written target by remark)
        (checkout-Keeps now written target by remark) s p
  change_keeps (clear now written by remark) s p =
      kept (clear_checkout_requested lib env now written by remark)
        (clear-Keeps now written by remark) s p
  change_keeps (request now h) s p = kept (build_plan_context lib env now h) (build-Keeps now h) s p
  change_keeps restart s p = (tt, p.1)

  changes_keep :
      (cs : List Change) (s : PlanState)
      → OfSettings (Spent lib) s
      → OfSettings (Spent lib) (changes cs s)
  unfolding changes
  changes_keep [] s p = p
  changes_keep (c ∷ cs) s p = changes_keep cs (change c s) (change_keeps c s p)

  -- A trial is granted once: after a call of `start_plan_trial` that returned, and whatever changes,
  -- requests and restarts follow it, no call of `start_plan_trial` returns.
  pub trial_granted_once :
      (s : PlanState) (cs : List Change) (c d : PlanContext) (now later : ℕ)
      (first written first' written' : Bool) (by by' : Option Text) (target target' : Text)
      (duration duration' : Option ℤ)
      → (start_plan_trial lib env now first written by target duration s).0 ≡ returned c
      → (start_plan_trial lib env later first' written' by' target' duration'
          (changes cs (start_plan_trial lib env now first written by target duration s).1)).0
        ≢ returned d
  trial_granted_once s cs c d now later first written first' written' by by' target target' duration
        duration' started again =
      let r = start_plan_trial lib env now first written by target duration s in
      let spent =
        returned-Post (λ _. OfSettings (Spent lib)) Anything r c started
          ((start_spends now first written by target duration).run s tt) in
      let s' = changes cs r.1 in
      returned-Post (λ _ _. ⊥) (OfSettings (Spent lib))
        (start_plan_trial lib env later first' written' by' target' duration' s') d again
        ((start_refuses later first' written' by' target' duration').run s'
          (changes_keep cs r.1 spent))
