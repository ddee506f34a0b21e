-- ===== src/PlanConfig/Normal.antt =====
-- Normal tier configs: tidy entitlements, limits that are not negative. Normalization gives them and
-- leaves them as they are.
use ko_finance.Common.{
  Text, codes, text_eq, strip, lstrip, rstrip, is_space, Tidy, Json, null, flag, number, string,
  array, object, field_of, to_int, ℤ, real, pos, negsuc, ltb_ℤ, text_keys, Values, Option, none,
  some, Bool, true, false, List, [], ◌∷◌, ◌≡◌, refl, arith,
}
use ko_finance.PlanConfig.{
  Quota, TierConfig, default_plan_config, quota_fields, natural_or, safe_int, overridden, safe_flag,
  normalize_quota, limit_json,
}

-- A limit that is absent or not negative.
abbrev pub Natural : Option ℤ → Type 0
Natural none = Unit
Natural (some (pos n)) = Unit
Natural (some (negsuc n)) = ⊥

abbrev pub NormalQuota : Quota → Type 0
NormalQuota q = Natural q.chat × Natural q.rag × Natural q.peer

abbrev pub full : List Text → Bool
full [] = false
full (t ∷ ts) = true

abbrev pub Normal : TierConfig → Type 0
Normal t = Tidy t.entitlements × (full t.entitlements ≡ true) × NormalQuota t.quota

natural_or-Natural : (old new : Option ℤ) → Natural old → Natural (natural_or old new)
natural_or-Natural old none h = h
natural_or-Natural old (some (pos n)) h =
    let e : ltb_ℤ (pos n) (pos 0) ≡ false = ground arith in rw e tt
natural_or-Natural old (some (negsuc n)) h =
    let e : ltb_ℤ (negsuc n) (pos 0) ≡ true = ground arith in rw e h

overridden-Natural : (old : Option ℤ) (v : Option Json) → Natural old → Natural (overridden old v)
unfolding safe_int
overridden-Natural old none h = h
overridden-Natural old (some null) h = tt
overridden-Natural old (some (flag b)) h = natural_or-Natural old (to_int (flag b)) h
overridden-Natural old (some (number n)) h = natural_or-Natural old (to_int (number n)) h
overridden-Natural old (some (real n f)) h = natural_or-Natural old (to_int (real n f)) h
overridden-Natural old (some (string [])) h = tt
overridden-Natural old (some (string (c ∷ s))) h =
    natural_or-Natural old (to_int (string (c ∷ s))) h
overridden-Natural old (some (array vs)) h = natural_or-Natural old (to_int (array vs)) h
overridden-Natural old (some (object fs)) h = natural_or-Natural old (to_int (object fs)) h

pub normalize_quota-NormalQuota :
    (payload : Option Json) (q : Quota) → NormalQuota q → NormalQuota (normalize_quota payload q)
unfolding normalize_quota
normalize_quota-NormalQuota none q h = h
normalize_quota-NormalQuota (some null) q h = h
normalize_quota-NormalQuota (some (flag b)) q h = h
normalize_quota-NormalQuota (some (number n)) q h = h
normalize_quota-NormalQuota (some (real n f)) q h = h
normalize_quota-NormalQuota (some (string s)) q h = h
normalize_quota-NormalQuota (some (array vs)) q h = h
normalize_quota-NormalQuota (some (object p)) q (c, r, e) = (
  overridden-Natural q.chat (field_of (codes "chatRequestsPerDay") p) c,
  overridden-Natural q.rag (field_of (codes "ragTopK") p) r,
  overridden-Natural q.peer (field_of (codes "peerExportRowLimit") p) e,
)

-- A quota is read back as it is written, whatever the fallback.
overridden-limit_json :
    (old limit : Option ℤ) → Natural limit → overridden old (some (limit_json limit)) ≡ limit
unfolding safe_int to_int
overridden-limit_json old none h = refl
overridden-limit_json old (some (pos n)) h =
    let e : ltb_ℤ (pos n) (pos 0) ≡ false = ground arith in rw e refl
overridden-limit_json old (some (negsuc n)) h = absurd h

pub normalize_quota-quota_fields :
    (base q : Quota) → NormalQuota q → normalize_quota (some (object (quota_fields q))) base ≡ q
unfolding normalize_quota quota_fields field_of text_eq safe_flag
normalize_quota-quota_fields base q (c, r, e) =
    rw
      (
        overridden-limit_json base.chat q.chat c,
        overridden-limit_json base.rag q.rag r,
        overridden-limit_json base.peer q.peer e,
      )
      refl

pub default-Values : Values Normal default_plan_config.tiers
unfolding default_plan_config text_eq strip lstrip rstrip is_space
default-Values = (
  ((refl, refl, refl, tt), refl, (tt, tt, tt)),
  (
    ((refl, refl, refl, (refl, refl, refl, (refl, refl, refl, tt))), refl, (tt, tt, tt)),
    (
      (
        (
          refl,
          refl,
          refl,
          (refl, refl, refl, (refl, refl, refl, (refl, refl, refl, (refl, refl, refl, tt)))),
        ),
        refl,
        (tt, tt, tt),
      ),
      (
        (
          (
            refl,
            refl,
            refl,
            (
              refl,
              refl,
              refl,
              (
                refl,
                refl,
                refl,
                (refl, refl, refl, (refl, refl, refl, (refl, refl, refl, (refl, refl, refl, tt)))),
              ),
            ),
          ),
          refl,
          (tt, tt, tt),
        ),
        tt,
      ),
    ),
  ),
)
