-- ===== src/PlanConfig/Updates.antt =====
-- The plan config over any calls: what get_tier_config answers is normal, and what
-- update_plan_config was given is answered after a restart.
use ko_finance.Common.{
  Text, codes, Json, Items, Dict, lookup, insert, update, text_keys, Values, insert-Values,
  update-Values, lookup-Values, lookup-update, Distinct, insert-Distinct, update-Distinct, Option,
  none, some, or_default, Bool, true, false, [], ◌≡◌, refl, ap, ◌∙◌, inl, inr, Option-cases,
  Bool-cases, arith,
}
use mathlib.Core.Path.{subst}
use ko_finance.PlanConfig.{Config, TierConfig, default_plan_config}
use ko_finance.PlanConfig.Entries.{merge_items, merge_plan_config}
use ko_finance.PlanConfig.Normal.{Normal, default-Values}
use ko_finance.PlanConfig.Store.{
  ConfigStore, clear_cache, raw_payload, load_file, load_plan_config, tier_entry, get_tier_config,
  updated_config, save, save_updated, update_plan_config,
}
use ko_finance.PlanConfig.Merge.{
  NormalTiers, NormalConfig, merge_items_keeps, merge_plan_config-NormalConfig,
  merge_plan_config-config_fields, lookup-read_back,
}

-- A cached config is normal.
abbrev Sound : Option Config → Type 0
Sound none = Unit
Sound (some c) = NormalConfig c

-- Entries that are merged from nothing.
abbrev Entries : Dict Text TierConfig → Type 0
Entries d = Values Normal d × Distinct d

insert-Entries :
    (k : Text) (t : TierConfig) (d : Dict Text TierConfig)
    → Normal t
    → Entries d
    → Entries (insert k t d)
insert-Entries k t d n (v, u) = (insert-Values Normal k t d n v, insert-Distinct k t d u)

updated-NormalTiers :
    (d more : Dict Text TierConfig) → NormalTiers d → Entries more → NormalTiers (update d more)
updated-NormalTiers d more (v, u, c) (w, m) = (
  update-Values Normal d more v w,
  update-Distinct d more u,
  λ tier gone. c tier (let e = lookup-update tier d more m in ground (arith, e, gone)),
)

pub tier_entry-Normal : (tier : Text) (c : Config) → NormalConfig c → Normal (tier_entry tier c)
unfolding tier_entry default_plan_config lookup
tier_entry-Normal tier c (v, u, covers) = elim (Option-cases (lookup tier c.tiers)) [
  | inr (t, e) ↦ rw e (lookup-Values Normal tier c.tiers t v e)
  | inl gone ↦ elim (Option-cases (lookup (codes "free") c.tiers)) [
    | inr (t, e) ↦ rw (gone, e) (lookup-Values Normal (codes "free") c.tiers t v e)
    | inl f ↦ rw (gone, f) (default-Values.0)
  ]
]

abbrev Loaded : Option Config × ConfigStore → Type 0
Loaded r = Sound r.0 × Sound r.1.cache

save_updated-Sound :
    (written : Bool) (entries : Dict Text TierConfig) (now : Text) (by remark : Option Text)
    (r : Option Config × ConfigStore)
    → Entries entries
    → Loaded r
    → Sound (save_updated written entries now by remark r).1.cache
unfolding save
save_updated-Sound written entries now by remark (none, s) e (h, k) = k
save_updated-Sound true entries now by remark (some c, s) e (h, k) =
    updated-NormalTiers c.tiers entries h e
save_updated-Sound false entries now by remark (some c, s) e (h, k) = k

module _ (show : Json → Text) where
  -- The stores that calls lead to, whatever stands in the file.
  pub data Reach : ConfigStore → Type 0 where
    start : (file : Option Json) → Reach (record { cache = none; file = file })
    edit : (s : ConfigStore) (file : Option Json) → Reach s → Reach (record s { file = file })
    clear : (s : ConfigStore) → Reach s → Reach (clear_cache s)
    read : (s : ConfigStore) (reload : Bool) → Reach s → Reach (load_plan_config show reload s).1
    write :
        (s : ConfigStore) (written : Bool) (now : Text) (tiers : Items) (by remark : Option Text)
        → Reach s
        → Reach (update_plan_config show written now tiers by remark s).1

  load_file-Loaded : (s : ConfigStore) → Sound s.cache → Loaded (load_file show s)
  load_file-Loaded s h = elim (Option-cases (merge_plan_config show (raw_payload s))) [
    | inl e ↦ rw e (tt, h)
    | inr (c, e) ↦ let n = merge_plan_config-NormalConfig show (raw_payload s) c e in rw e (n, n)
  ]

  load-Loaded :
      (reload : Bool) (s : ConfigStore) → Sound s.cache → Loaded (load_plan_config show reload s)
  unfolding load_plan_config
  load-Loaded reload s h = elim (Option-cases s.cache) [
    | inl e ↦ rw (load_plan_config, e) (load_file-Loaded s h)
    | inr (c, e) ↦ elim (Bool-cases reload) [
      | inl r ↦ rw (load_plan_config, e, r) (load_file-Loaded s h)
      | inr r ↦ rw (load_plan_config, e, r) (subst Sound e h, h)
    ]
  ]

  merge-Entries :
      (tiers : Items) (entries : Dict Text TierConfig)
      → merge_items show tiers [] ≡ some entries
      → Entries entries
  merge-Entries tiers entries eq =
      merge_items_keeps show Entries insert-Entries tiers [] entries (tt, tt) eq

  update-Sound :
      (written : Bool) (now : Text) (tiers : Items) (by remark : Option Text) (s : ConfigStore)
      → Sound s.cache
      → Sound (update_plan_config show written now tiers by remark s).1.cache
  unfolding update_plan_config
  update-Sound written now tiers by remark s h = elim (Option-cases (merge_items show tiers [])) [
    | inl e ↦ rw (update_plan_config, e) h
    | inr (entries, e) ↦
        rw (update_plan_config, e)
          (save_updated-Sound written entries now by remark (load_plan_config show false s)
            (merge-Entries tiers entries e) (load-Loaded false s h))
  ]

  Reach-Sound : (s : ConfigStore) → Reach s → Sound s.cache
  unfolding clear_cache
  Reach-Sound _ (start file) = tt
  Reach-Sound _ (edit s file r) = Reach-Sound s r
  Reach-Sound _ (clear s r) = tt
  Reach-Sound _ (read s reload r) = (load-Loaded reload s (Reach-Sound s r)).1
  Reach-Sound _ (write s written now tiers by remark r) =
      update-Sound written now tiers by remark s (Reach-Sound s r)

  -- Whatever the file held and however often it was edited, read and updated, a tier config that
  -- is answered has entitlements without white space around them, none empty and none twice, at
  -- least one of them, and limits that are absent or not negative.
  pub get_tier_config-Normal :
      (s : ConfigStore) (tier : Text) (t : TierConfig)
      → Reach s
      → (get_tier_config show tier s).0 ≡ some t
      → Normal t
  unfolding get_tier_config
  get_tier_config-Normal s tier t r eq =
      let h = load-Loaded false s (Reach-Sound s r) in
      elim (Option-cases (load_plan_config show false s).0) [
        | inl e ↦ absurd (ground (arith, e))
        | inr (c, e) ↦
            let same : tier_entry tier c ≡ t = ground (arith, e) in
            subst Normal same (tier_entry-Normal tier c (subst Sound e h.0))
      ]

  -- A successful update.
  update_lem :
      (now : Text) (tiers : Items) (by remark : Option Text) (s : ConfigStore)
      (entries : Dict Text TierConfig) (c : Config)
      → merge_items show tiers [] ≡ some entries
      → (load_plan_config show false s).0 ≡ some c
      → update_plan_config show true now tiers by remark s
        ≡ save true (updated_config entries now by remark c) (load_plan_config show false s).1
  unfolding update_plan_config
  update_lem now tiers by remark s entries c merged read_first =
      rw (update_plan_config, merged, read_first) refl

  restarted_lem :
      (tier : Text) (u : Config) (s : ConfigStore) (t : TierConfig)
      → NormalConfig u
      → lookup tier u.tiers ≡ some t
      → (get_tier_config show tier (clear_cache (save true u s).1)).0 ≡ some t
  unfolding get_tier_config clear_cache save load_plan_config tier_entry
  restarted_lem tier u s t n found =
      rw (get_tier_config, merge_plan_config-config_fields show u n)
        (rw (lookup-read_back u n tier, found) refl)

  -- After a restart a tier that the config had before the last update has the entry that the update gave
  -- it, normalized, or, if the update did not name it, the entry that it had before; the entries of the
  -- update and the stored config can be read, and the file can be written.
  pub get_tier_config-update_plan_config :
      (s : ConfigStore) (now : Text) (tiers : Items) (by remark : Option Text)
      (entries : Dict Text TierConfig) (c : Config) (tier : Text) (old : TierConfig)
      → Reach s
      → merge_items show tiers [] ≡ some entries
      → (load_plan_config show false s).0 ≡ some c
      → lookup tier c.tiers ≡ some old
      → (get_tier_config show tier
          (clear_cache (update_plan_config show true now tiers by remark s).1)).0
        ≡ some (or_default (lookup tier entries) old)
  get_tier_config-update_plan_config s now tiers by remark entries c tier old r merged read_first
        known =
      let h = load-Loaded false s (Reach-Sound s r) in
      let e = merge-Entries tiers entries merged in
      let u = updated_config entries now by remark c in
      let n : NormalConfig u = updated-NormalTiers c.tiers entries (subst Sound read_first h.0) e in
      let found : lookup tier u.tiers ≡ some (or_default (lookup tier entries) old) =
        lookup-update tier c.tiers entries e.1 ∙ elim (Option-cases (lookup tier entries)) [
          | inl gone ↦ rw (gone, known) refl
          | inr (t, there) ↦ rw there refl
        ] in
      ap (λ (w : Option Config × ConfigStore). (get_tier_config show tier (clear_cache w.1)).0)
        (update_lem now tiers by remark s entries c merged read_first)
      ∙ restarted_lem tier u (load_plan_config show false s).1
          (or_default (lookup tier entries) old) n found
