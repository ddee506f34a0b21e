-- ===== src/PlanConfig/Merge.antt =====
-- The configs that are loaded have a normal entry for each tier and the default tiers.
use ko_finance.Common.{
  Text, codes, text_eq, nonempty, Json, null, flag, number, real, string, array, object, Items, nil,
  cons, Fields, end, field, field_of, Dict, lookup, insert, update, text_keys, Values,
  insert-Values, lookup-update, lookup-insert, Distinct, insert-Distinct, none, some, ◌≡◌, refl,
  ◌∙◌, inl, inr, Option-cases, Bool-cases, arith,
}
use mathlib.Core.Path.{subst}
use ko_finance.PlanConfig.{Config, TierConfig, default_plan_config, config_fields, value_of}
use ko_finance.PlanConfig.Entries.{
  merge_items, merge_fields, merge_tiers, merge_plan_config, tier_of, normalize_tier_entry,
}
use ko_finance.PlanConfig.Normal.{Normal, default-Values}
use ko_finance.PlanConfig.Readback.{normalize_tier_entry-Normal, merge_fields-tiers_fields}

-- The default tiers all have an entry.
abbrev pub Covers : Dict Text TierConfig → Type 0
Covers d = (tier : Text) → lookup tier d ≡ none → lookup tier default_plan_config.tiers ≡ none

abbrev pub NormalTiers : Dict Text TierConfig → Type 0
NormalTiers d = Values Normal d × Distinct d × Covers d

-- Each entry is normal, none stands twice, and the default tiers are there.
abbrev pub NormalConfig : Config → Type 0
NormalConfig c = NormalTiers c.tiers

pub default-NormalTiers : NormalTiers default_plan_config.tiers
unfolding default_plan_config lookup text_eq
default-NormalTiers = (default-Values, (refl, (refl, (refl, (refl, tt)))), λ tier h. h)

insert-Covers :
    (k : Text) (t : TierConfig) (d : Dict Text TierConfig) → Covers d → Covers (insert k t d)
insert-Covers k t d h tier gone = h tier (ground (arith, lookup-insert k tier t d, gone))

insert-NormalTiers :
    (k : Text) (t : TierConfig) (d : Dict Text TierConfig)
    → Normal t
    → NormalTiers d
    → NormalTiers (insert k t d)
insert-NormalTiers k t d n (v, u, c) =
    (insert-Values Normal k t d n v, insert-Distinct k t d u, insert-Covers k t d c)

module _ (show : Json → Text) (P : Dict Text TierConfig → Type 0)
    (closed : (k : Text) (t : TierConfig) (d : Dict Text TierConfig)
      → Normal t
      → P d
      → P (insert k t d)) where
  -- What insertions of normal entries keep, merging keeps.
  pub merge_items_keeps :
      (vs : Items) (d e : Dict Text TierConfig) → P d → merge_items show vs d ≡ some e → P e
  unfolding merge_items
  merge_items_keeps nil d e p eq = let same : d ≡ e = ground arith in subst P same p
  merge_items_keeps (cons (object entry) vs) d e p eq =
      let k = tier_of show entry in
      elim (Bool-cases (nonempty k)) [
        | inr f ↦ merge_items_keeps vs d e p (ground (arith, f))
        | inl named ↦ elim (Option-cases (normalize_tier_entry show k entry)) [
          | inl f ↦ absurd (ground (arith, f, named))
          | inr (t, f) ↦
              merge_items_keeps vs (insert k t d) e
                (closed k t d (normalize_tier_entry-Normal show k entry t f) p)
                (ground (arith, f, named))
        ]
      ]
  merge_items_keeps (cons null vs) d e p eq = merge_items_keeps vs d e p eq
  merge_items_keeps (cons (flag b) vs) d e p eq = merge_items_keeps vs d e p eq
  merge_items_keeps (cons (number n) vs) d e p eq = merge_items_keeps vs d e p eq
  merge_items_keeps (cons (real n f) vs) d e p eq = merge_items_keeps vs d e p eq
  merge_items_keeps (cons (string s) vs) d e p eq = merge_items_keeps vs d e p eq
  merge_items_keeps (cons (array ws) vs) d e p eq = merge_items_keeps vs d e p eq

  merge_fields_keeps :
      (fs : Fields) (d e : Dict Text TierConfig) → P d → merge_fields show fs d ≡ some e → P e
  unfolding merge_fields
  merge_fields_keeps end d e p eq = let same : d ≡ e = ground arith in subst P same p
  merge_fields_keeps (field k (object entry) fs) d e p eq =
      elim (Option-cases (normalize_tier_entry show k entry)) [
        | inl f ↦ absurd (ground (arith, f))
        | inr (t, f) ↦
            merge_fields_keeps fs (insert k t d) e
              (closed k t d (normalize_tier_entry-Normal show k entry t f) p) (ground (arith, f))
      ]
  merge_fields_keeps (field k null fs) d e p eq = merge_fields_keeps fs d e p eq
  merge_fields_keeps (field k (flag b) fs) d e p eq = merge_fields_keeps fs d e p eq
  merge_fields_keeps (field k (number n) fs) d e p eq = merge_fields_keeps fs d e p eq
  merge_fields_keeps (field k (real n f) fs) d e p eq = merge_fields_keeps fs d e p eq
  merge_fields_keeps (field k (string s) fs) d e p eq = merge_fields_keeps fs d e p eq
  merge_fields_keeps (field k (array ws) fs) d e p eq = merge_fields_keeps fs d e p eq

  merge_tiers_keeps :
      (v : Json) (d e : Dict Text TierConfig) → P d → merge_tiers show v d ≡ some e → P e
  unfolding merge_tiers
  merge_tiers_keeps (object fs) d e p eq = merge_fields_keeps fs d e p eq
  merge_tiers_keeps (array vs) d e p eq = merge_items_keeps vs d e p eq
  merge_tiers_keeps null d e p eq = let same : d ≡ e = ground arith in subst P same p
  merge_tiers_keeps (flag b) d e p eq = let same : d ≡ e = ground arith in subst P same p
  merge_tiers_keeps (number n) d e p eq = let same : d ≡ e = ground arith in subst P same p
  merge_tiers_keeps (real n f) d e p eq = let same : d ≡ e = ground arith in subst P same p
  merge_tiers_keeps (string s) d e p eq = let same : d ≡ e = ground arith in subst P same p

-- What is read of a normal config that has been written.
abbrev pub read_back : Config → Config
read_back c = record c { tiers = update default_plan_config.tiers c.tiers }

pub lookup-read_back :
    (c : Config)
    → NormalConfig c
    → (tier : Text) → lookup tier (read_back c).tiers ≡ lookup tier c.tiers
lookup-read_back c (v, u, covers) tier =
    lookup-update tier default_plan_config.tiers c.tiers u
    ∙ elim (Option-cases (lookup tier c.tiers)) [
      | inl gone ↦ rw (gone, covers tier gone) refl
      | inr (t, found) ↦ rw found refl
    ]

module _ (show : Json → Text) where
  pub merge_plan_config-NormalConfig :
      (v : Json) (c : Config) → merge_plan_config show v ≡ some c → NormalConfig c
  unfolding merge_plan_config
  merge_plan_config-NormalConfig (object raw) c eq =
      let tiers = value_of (codes "tiers") raw in
      let base = default_plan_config.tiers in
      elim (Option-cases (merge_tiers show tiers base)) [
        | inl f ↦ absurd (ground (arith, f))
        | inr (d, f) ↦
            let same : d ≡ c.tiers = ground (arith, f) in
            subst NormalTiers same (
              merge_tiers_keeps show NormalTiers insert-NormalTiers tiers base d default-NormalTiers
                f)
      ]
  merge_plan_config-NormalConfig null c eq = absurd (ground arith)
  merge_plan_config-NormalConfig (flag b) c eq = absurd (ground arith)
  merge_plan_config-NormalConfig (number n) c eq = absurd (ground arith)
  merge_plan_config-NormalConfig (real n f) c eq = absurd (ground arith)
  merge_plan_config-NormalConfig (string s) c eq = absurd (ground arith)
  merge_plan_config-NormalConfig (array vs) c eq = absurd (ground arith)

  pub merge_plan_config-config_fields :
      (c : Config)
      → NormalConfig c
      → merge_plan_config show (object (config_fields c)) ≡ some (read_back c)
  unfolding merge_plan_config config_fields merge_tiers field_of text_eq
  merge_plan_config-config_fields c (v, u, covers) =
      rw (merge_plan_config, merge_fields-tiers_fields show default_plan_config.tiers c.tiers v)
        refl
