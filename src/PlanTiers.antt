-- ===== src/PlanTiers.antt =====
-- core/plan_constants.py: the plan tiers.
use ko_finance.Common.{Text, codes, List, [], ◌∷◌}

abbrev pub plan_tiers : List Text
plan_tiers = codes "free" ∷ codes "starter" ∷ codes "pro" ∷ codes "enterprise" ∷ []
