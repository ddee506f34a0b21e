-- ===== src/Entitlement/Decision.antt =====
-- What a quota decision depends on, and what it records.
use ko_finance.Common.{
  ℕ, ℤ, pos, negsuc, ◌+ℤ◌, leb_ℤ, max_ℤ, Text, lookup, lookup-insert, nat_keys, text_keys,
  pair_keys, same_pair, Option, none, some, Bool, true, false, ◌≡◌, refl, ◌∙◌, ap, arith,
  if◌then◌else◌, Option-cases, inl, inr,
}
use ko_finance.Entitlement.{
  LimitValue, switch, count, Config, Service, Tables, get, UsageKey, resolve_plan_slug,
  load_plan_limits, filled, slug_or_default,
}
use ko_finance.Entitlement.Usage.{
  UsageServer, Call, Texts, Subject, evaluate, decide, counted, charged, increment_usage,
  increment_usage_db, read_usage, usage_key, used_before,
}
use ko_finance.Entitlement.Quota.{
  QuotaError, evaluate_quota, enforce_quota, resolve_subject, refusal,
}

-- What the plan says of an action, without any usage.
abbrev pub plan_permits : Option LimitValue → Bool
plan_permits none = true
plan_permits (some (switch b)) = b
plan_permits (some (count limit)) = if leb_ℤ limit (pos 0) then false else true

-- The problem that the plan alone gives for an action.
abbrev pub plan_error : Option LimitValue → Option QuotaError
plan_error none = none
plan_error (some (switch b)) = if b then none else some QuotaError.quota_unavailable
plan_error (some (count (pos n))) =
    if leb_ℤ (pos n) (pos 0) then some QuotaError.quota_unavailable else none
plan_error (some (count (negsuc n))) = some QuotaError.quota_exceeded

counted-allowed : (limit : ℤ) (used : Option ℤ) → (counted limit used).allowed ≡ true
unfolding counted
counted-allowed limit none = refl
counted-allowed limit (some used) = ground arith

module _ (cfg : Config) where
  resolve_plan_slug-tables :
      (up : Bool) (org : ℕ) (s : Service) → (resolve_plan_slug cfg up org s).1.tables ≡ s.tables
  unfolding resolve_plan_slug
  resolve_plan_slug-tables up org s = elim (Option-cases (filled (lookup org s.org_plan_cache))) [
    | inl e ↦ rw (e, resolve_plan_slug) refl
    | inr (slug, e) ↦ rw (e, resolve_plan_slug) refl
  ]

  load_plan_limits-tables :
      (up : Bool) (slug : Text) (s : Service) → (load_plan_limits cfg up slug s).1.tables ≡ s.tables
  unfolding load_plan_limits
  load_plan_limits-tables up slug s =
      elim (Option-cases (lookup (slug_or_default cfg slug) s.plan_cache)) [
        | inl e ↦ rw (e, load_plan_limits) refl
        | inr (limits, e) ↦ rw (e, load_plan_limits) refl
      ]

  pub get-tables :
      (plan_up limits_up : Bool) (org : ℕ) (s : Service)
      → (get cfg plan_up limits_up org s).1.tables ≡ s.tables
  unfolding get
  get-tables plan_up limits_up org s =
      let (slug, s1) = resolve_plan_slug cfg plan_up org s in
      load_plan_limits-tables limits_up slug s1 ∙ resolve_plan_slug-tables plan_up org s

module _ (cfg : Config) (texts : Texts) (server : UsageServer) where
  decide-allowed :
      (mutate : Bool) (c : Call) (a : Subject) (cost : ℤ) (limit : Option LimitValue)
      (w : Service × server.State)
      → (decide cfg texts server mutate c a cost limit w).0.allowed ≡ plan_permits limit
  unfolding decide
  decide-allowed mutate c a cost none w = refl
  decide-allowed mutate c a cost (some (switch b)) w = refl
  decide-allowed mutate c a cost (some (count limit)) w =
      let used = (increment_usage cfg texts server c a cost w).0 in
      ground (
        arith,
        counted-allowed limit used,
        counted-allowed limit (read_usage cfg texts server c a w),
      )

  -- Whether an action is allowed depends on the limits of the plan alone: an action is refused
  -- exactly when its limit is the flag false or a count of 0 or less, whatever has been used.
  pub evaluate_by_plan :
      (mutate : Bool) (c : Call) (a : Subject) (cost : ℤ) (s : Service) (r : server.State)
      → (evaluate cfg texts server mutate c a cost (s, r)).0.allowed
        ≡ plan_permits (lookup a.action (get cfg c.plan_up c.limits_up a.org s).0.limits)
  unfolding evaluate
  evaluate_by_plan mutate c a cost s r =
      let (e, s1) = get cfg c.plan_up c.limits_up a.org s in
      decide-allowed mutate c a (charged cost) (lookup a.action e.limits) (s1, r)

  -- What `consume` writes to the table under a positive limit.
  decide-usage :
      (c : Call) (a : Subject) (cost limit : ℤ) (s : Service) (r : server.State) (k : UsageKey)
      → leb_ℤ limit (pos 0) ≡ false
      → c.usage_up ≡ true
      → lookup k
          (decide cfg texts server true c a cost (some (count limit)) (s, r)).1.0.tables.usage
        ≡ (if same_pair (usage_key a c.current_date) k
            then some (used_before a c.current_date s.tables +ℤ cost)
            else lookup k s.tables.usage)
  unfolding decide increment_usage increment_usage_db
  decide-usage c a cost limit s r k h up =
      rw (h, up)
        (lookup-insert (usage_key a c.current_date) k
          (used_before a c.current_date s.tables +ℤ cost) s.tables.usage)

  decide-check :
      (c : Call) (a : Subject) (cost : ℤ) (limit : Option LimitValue) (w : Service × server.State)
      → (decide cfg texts server false c a cost limit w).1 ≡ w
  unfolding decide
  decide-check c a cost none w = refl
  decide-check c a cost (some (switch b)) w = refl
  decide-check c a cost (some (count limit)) w = ground arith

  decide-error :
      (c : Call) (a : Subject) (cost : ℤ) (limit : Option LimitValue) (w : Service × server.State)
      → refusal (some (decide cfg texts server true c a cost limit w).0) ≡ plan_error limit
  unfolding decide
  decide-error c a cost none w = refl
  decide-error c a cost (some (switch b)) w = ground arith
  decide-error c a cost (some (count (pos n))) w =
      let used = (increment_usage cfg texts server c a cost w).0 in
      ground (arith, counted-allowed (pos n) used)
  decide-error c a cost (some (count (negsuc n))) w = ground arith

  abbrev usage_after : Call → Subject → ℤ → UsageKey → Tables → Option ℤ
  usage_after c a cost k t =
      if same_pair (usage_key a c.current_date) k
      then some (used_before a c.current_date t +ℤ charged cost)
      else lookup k t.usage

  -- Under a positive limit, and if the database answers, `consume` adds the cost, at least 1, to the
  -- day's usage of the organization, user and action, and leaves every other row as it is.
  pub consume_adds_usage :
      (c : Call) (a : Subject) (cost limit : ℤ) (s : Service) (r : server.State) (k : UsageKey)
      → lookup a.action (get cfg c.plan_up c.limits_up a.org s).0.limits ≡ some (count limit)
      → leb_ℤ limit (pos 0) ≡ false
      → c.usage_up ≡ true
      → lookup k (evaluate cfg texts server true c a cost (s, r)).1.0.tables.usage ≡ (
          if same_pair (usage_key a c.current_date) k
          then some (used_before a c.current_date s.tables +ℤ charged cost)
          else lookup k s.tables.usage)
  unfolding evaluate
  consume_adds_usage c a cost limit s r k found positive up =
      let s1 = (get cfg c.plan_up c.limits_up a.org s).1 in
      rw found (
        decide-usage c a (charged cost) limit s1 r k positive up
        ∙ ap (usage_after c a cost k) (get-tables cfg c.plan_up c.limits_up a.org s))

  -- `check` writes to no table and sends no command that changes the counters of Redis.
  pub check_records_nothing :
      (c : Call) (a : Subject) (cost : ℤ) (s : Service) (r : server.State)
      → ((evaluate cfg texts server false c a cost (s, r)).1.0.tables ≡ s.tables)
        × ((evaluate cfg texts server false c a cost (s, r)).1.1 ≡ r)
  unfolding evaluate
  check_records_nothing c a cost s r =
      let (e, s1) = get cfg c.plan_up c.limits_up a.org s in
      rw (decide-check c a (charged cost) (lookup a.action e.limits) (s1, r))
        (get-tables cfg c.plan_up c.limits_up a.org s, refl)

  -- The error that `enforce_quota` raises for a user of an organization is the one that the plan
  -- alone gives: 403 for a flag that is false or a limit of 0, 429 for a negative limit, and none
  -- under a positive limit, whatever has been used.
  pub enforce_quota_by_plan :
      (c : Call) (action : Text) (user org : ℕ) (cost : ℤ) (s : Service) (r : server.State)
      → (enforce_quota cfg texts server c action (some user) (some org) cost (s, r)).0
        ≡ plan_error (lookup action (get cfg c.plan_up c.limits_up org s).0.limits)
  unfolding enforce_quota evaluate_quota evaluate resolve_subject
  enforce_quota_by_plan c action user org cost s r =
      let (e, s1) = get cfg c.plan_up c.limits_up org s in
      decide-error c (record { org = org; user = user; action = action })
        (charged (max_ℤ cost (pos 1))) (lookup action e.limits) (s1, r)
