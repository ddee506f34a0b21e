-- ===== src/PlanConfig/Readback.antt =====
-- Normalized tier entries are normal, and a normal one is read back as it is written.
use ko_finance.Common.{
  Text, codes, text_eq, strip, strip_idem, lstrip, rstrip, nonempty, keep, map, first_texts, Fresh,
  Tidy, Stripped, first_texts-Fresh, first_texts_of_Fresh, Json, Fields, field_of, truthy, Dict,
  lookup, insert, update, text_keys, Values, lookup-Values, some, true, List, [], ◌∷◌, ◌≡◌, refl,
  ap, inl, inr, Option-cases, Bool-cases, arith,
}
use mathlib.Core.Path.{subst}
use ko_finance.JsonStore.{text_of}
use ko_finance.PlanConfig.{
  TierConfig, default_plan_config, free_tier, entry_fields, texts_items, items_list, iterate,
  or_fallback, normalize_quota, value_of, tiers_fields,
}
use ko_finance.PlanConfig.Entries.{
  base_tier_config, entry_text, normalize_entitlements, normalize_tier_entry, merge_fields,
}
use ko_finance.PlanConfig.Normal.{
  Normal, full, default-Values, normalize_quota-NormalQuota, normalize_quota-quota_fields,
}

keep-nonempty : (seen ts : List Text) → Fresh seen ts → keep nonempty ts ≡ ts
keep-nonempty seen [] h = refl
keep-nonempty seen (t ∷ ts) (s, n, m, h) = rw n (ap (λ r. t ∷ r) (keep-nonempty (t ∷ seen) ts h))

or_fallback-Tidy :
    (fallback ts : List Text)
    → Tidy fallback
    → full fallback ≡ true
    → Tidy ts
    → Tidy (or_fallback fallback ts) × (full (or_fallback fallback ts) ≡ true)
or_fallback-Tidy fallback [] h f t = rw (keep-nonempty [] fallback h) (h, f)
or_fallback-Tidy fallback (x ∷ ts) h f t = (t, refl)

or_fallback-full : (fallback ts : List Text) → full ts ≡ true → or_fallback fallback ts ≡ ts
or_fallback-full fallback [] h = absurd (ground arith)
or_fallback-full fallback (t ∷ ts) h = refl

strip-nil : strip [] ≡ []
unfolding strip lstrip rstrip
strip-nil = refl

pub base_tier_config-Normal : (tier : Text) → Normal (base_tier_config tier)
unfolding base_tier_config lookup default_plan_config text_eq
base_tier_config-Normal tier = elim (Option-cases (lookup tier default_plan_config.tiers)) [
  | inl e ↦ rw e free_Normal
  | inr (t, e) ↦ rw e (lookup-Values Normal tier default_plan_config.tiers t default-Values e)
]
  where
    free_Normal : Normal free_tier
    free_Normal =
        lookup-Values Normal (codes "free") default_plan_config.tiers free_tier default-Values refl

module _ (show : Json → Text) where
  entry_texts-Stripped : (vs : List Json) → Stripped (map (entry_text show) vs)
  entry_texts-Stripped [] = tt
  entry_texts-Stripped (v ∷ vs) = (
    elim (Bool-cases (truthy v)) [
      | inl e ↦ rw e (strip_idem (text_of show v))
      | inr e ↦ rw e strip-nil
    ],
    entry_texts-Stripped vs,
  )

  normalize_entitlements-Tidy :
      (values : Json) (fallback ts : List Text)
      → Tidy fallback
      → full fallback ≡ true
      → normalize_entitlements show values fallback ≡ some ts
      → Tidy ts × (full ts ≡ true)
  unfolding normalize_entitlements
  normalize_entitlements-Tidy values fallback ts h f eq = elim (Option-cases (iterate values)) [
    | inl e ↦ absurd (ground (arith, e))
    | inr (vs, e) ↦
        let texts = first_texts [] (map (entry_text show) vs) in
        let same : or_fallback fallback texts ≡ ts = ground (arith, e) in
        subst (λ (r : List Text). Tidy r × (full r ≡ true)) same
          (or_fallback-Tidy fallback texts h f
            (first_texts-Fresh [] (map (entry_text show) vs) (entry_texts-Stripped vs)))
  ]

  pub normalize_tier_entry-Normal :
      (tier : Text) (entry : Fields) (t : TierConfig)
      → normalize_tier_entry show tier entry ≡ some t
      → Normal t
  unfolding normalize_tier_entry
  normalize_tier_entry-Normal tier entry t eq =
      let base = base_tier_config tier in
      let values = value_of (codes "entitlements") entry in
      let (b, f, q) = base_tier_config-Normal tier in
      elim (Option-cases (normalize_entitlements show values base.entitlements)) [
        | inl e ↦ absurd (ground (arith, e))
        | inr (texts, e) ↦
            let built : TierConfig = record {
              entitlements = texts;
              quota = normalize_quota (field_of (codes "quota") entry) base.quota;
            } in
            let same : built ≡ t = ground (arith, e) in
            let (tidy, some_left) =
              normalize_entitlements-Tidy values base.entitlements texts b f e in
            subst Normal same (
              tidy,
              some_left,
              normalize_quota-NormalQuota (field_of (codes "quota") entry) base.quota q,
            )
      ]

  texts_read :
      (seen ts : List Text)
      → Fresh seen ts
      → map (entry_text show) (items_list (texts_items ts)) ≡ ts
  unfolding texts_items items_list truthy
  texts_read seen [] h = refl
  texts_read seen (t ∷ ts) (s, n, m, h) = rw (n, s, texts_read (t ∷ seen) ts h) refl

  -- A normal entry is read back as it is written, under any tier.
  pub normalize_tier_entry-entry_fields :
      (tier : Text) (t : TierConfig)
      → Normal t
      → normalize_tier_entry show tier (entry_fields t) ≡ some t
  unfolding normalize_tier_entry normalize_entitlements entry_fields iterate field_of text_eq
  normalize_tier_entry-entry_fields tier t (tidy, some_left, quota) =
      let ts = t.entitlements in
      let base = base_tier_config tier in
      rw
        (
          texts_read [] ts tidy,
          first_texts_of_Fresh [] ts tidy,
          or_fallback-full base.entitlements ts some_left,
          normalize_quota-quota_fields base.quota t.quota quota,
        )
        refl

  pub merge_fields-tiers_fields :
      (d more : Dict Text TierConfig)
      → Values Normal more
      → merge_fields show (tiers_fields more) d ≡ some (update d more)
  unfolding merge_fields tiers_fields update
  merge_fields-tiers_fields d [] h = refl
  merge_fields-tiers_fields d ((k, t) ∷ more) (n, h) =
      rw (merge_fields, normalize_tier_entry-entry_fields k t n)
        (merge_fields-tiers_fields (insert k t d) more h)
