-- ===== src/PlanSettings/Cancel.antt =====
-- What a cancelled checkout leaves of the plan settings.
use ko_finance.Common.{
  ℕ, Text, text_eq, nonempty, Tidy, string, truthy, field_of, Option, some, true, false, or_default,
  if◌then◌else◌, [], ◌≡◌, refl, ap, ◌∙◌,
}
use ko_finance.Payments.Contexts.{normalize_optional}
use ko_finance.PlanSettings.{Library, PersistedPlanSettings, normalize_plan_tier}
use ko_finance.PlanSettings.Exec.{PlanState, Outcome, returned}
use ko_finance.PlanSettings.Context.{PlanEnv, PlanContext}
use ko_finance.PlanSettings.Changes.{
  update_plan_context, clear_checkout_requested, cleared_update, updated_settings,
}
use ko_finance.PlanSettings.Checkout.{cleaned-Tidy_id, expiry_read}
use ko_finance.PlanSettings.Hoare.{returns}
use ko_finance.PlanSettings.Readback.{Reads, IsTier, Storable, apply-quota_fields}
use ko_finance.PlanSettings.Updating.{Shows, update-Holds}
use ko_finance.PlanSettings.Held.{Holds, load_cached}

module _ (lib : Library) (env : PlanEnv) (reads : Reads lib) where
  cleared_lem :
      (now : ℕ) (by remark : Option Text) (st : PersistedPlanSettings) (s : PlanState)
      → s.cache ≡ some st
      → clear_checkout_requested lib env now true by remark s
        ≡ update_plan_context lib env now true (cleared_update lib env by remark st) s
  unfolding clear_checkout_requested
  cleared_lem now by remark st s held =
      rw (clear_checkout_requested, load_cached lib st now s held) refl

  same_but :
      (now : ℕ) (by remark : Option Text) (st : PersistedPlanSettings)
      → IsTier lib st.plan_tier
      → Tidy st.entitlements
      → some (
          updated_settings lib env now
            (cleared_update lib env by remark st)
            st.expires_at
            st.quota
            (some st))
        ≡ some (record st {
          checkout_requested = false;
          updated_at = now;
          updated_by = normalize_optional (cleared_update lib env by remark st).updated_by;
          change_note = normalize_optional remark;
        })
  unfolding field_of text_eq truthy
  same_but now by remark st tier tidy = rw (tier, cleaned-Tidy_id st.entitlements tidy) refl

  -- A cancelled checkout clears the flag and nothing else: with settings in memory that are read back as
  -- they are written, with the plan config ready and a file that can be written,
  -- `clear_checkout_requested` returns, and the settings are those of before but for the flag, which is
  -- false, the instant, the actor, if one is given, and the note.
  pub clear_checkout_requested_lem :
      (now : ℕ) (by remark : Option Text) (st : PersistedPlanSettings) (s : PlanState)
      → Storable lib st
      → Holds st s
      → let r = clear_checkout_requested lib env now true by remark s in
        (c : PlanContext) × (r.0 ≡ returned c)
        × (r.1.cache
            ≡ some (record st {
              checkout_requested = false;
              updated_at = now;
              updated_by =
                  normalize_optional (if nonempty (or_default by []) then by else st.updated_by);
              change_note = normalize_optional remark;
            }))
  clear_checkout_requested_lem now by remark st s ok held =
      let u = cleared_update lib env by remark st in
      let (tier, tidy, n, _, _, trial, days) = ok in
      let new = updated_settings lib env now u st.expires_at st.quota (some st) in
      let (c, answer, (_, (memory, _))) =
        returns (λ c s. Shows lib env new now c × Holds new s)
          (update_plan_context lib env now true u s)
          ((update-Holds lib env reads now u st st.quota st.expires_at
              (λ b. apply-quota_fields lib true b st.quota n) n
              (expiry_read lib env reads st.expires_at) refl
              (ap (λ t. normalize_plan_tier lib (string t)) tier) trial days).run
            s held) in
      let eq = cleared_lem now by remark st s held.0 in
      (
        c,
        ap (λ (w : Outcome PlanContext × PlanState). w.0) eq ∙ answer,
        ap (λ (w : Outcome PlanContext × PlanState). w.1.cache) eq
            ∙ memory
            ∙ same_but now by remark st tier tidy,
      )
