-- ===== src/Entitlement/Usage.antt =====
-- services/entitlement_service.py: the decision on an action and the usage that it counts, in Redis
-- and in `entitlement_usage_daily`. The Redis server is the record `UsageServer`.
use ko_finance.Common.{
  ℕ, ◌-◌, ◌%◌, ℤ, pos, ◌+ℤ◌, ◌-ℤ◌, leb_ℤ, max_ℤ, max, Text, codes, lookup, insert, nat_keys,
  text_keys, pair_keys, Option, none, some, or_default, Bool, true, false, ◌++◌, if◌then◌else◌,
}
use ko_finance.Entitlement.{LimitValue, switch, count, Config, Service, Tables, UsageKey, get}

-- The two commands of the service. One that raises an exception answers `none`; `get` on a missing
-- key answers `some none`.
pub record UsageServer : Type 1 where
  pub State : Type 0
  pub get : Text → State → Option (Option ℤ)
  -- The pipeline `INCRBY key cost; EXPIRE key seconds`: the new count.
  pub incrby_expire : Text → ℤ → ℤ → State → Option ℤ × State

-- What a call meets: which queries succeed, whether there is a Redis client, the instant, and the
-- dates of the process and of the database.
pub record Call : Type 0 where
  pub plan_up : Bool
  pub limits_up : Bool
  pub usage_up : Bool
  pub connected : Bool
  pub now : ℕ
  pub today : ℕ
  pub current_date : ℕ

-- `str` of a UUID and `strftime("%Y%m%d")` of a date.
pub record Texts : Type 0 where
  pub uuid : ℕ → Text
  pub day : ℕ → Text

pub record EntitlementDecision : Type 0 where
  pub allowed : Bool
  pub remaining : Option ℤ
  pub limit : Option ℤ
  pub backend_error : Bool

-- Who acts and on what: organization, user and action.
pub record Subject : Type 0 where
  pub org : ℕ
  pub user : ℕ
  pub action : Text

-- `_seconds_until_day_end`
abbrev pub seconds_until_day_end : ℕ → ℕ
seconds_until_day_end now = max (86400 - now % 86400) 60

abbrev pub usage_key : Subject → ℕ → UsageKey
usage_key a day = (a.org, (a.user, (a.action, day)))

abbrev pub used_before : Subject → ℕ → Tables → ℤ
used_before a day t = or_default (lookup (usage_key a day) t.usage) (pos 0)

abbrev pub charged : ℤ → ℤ
charged cost = if leb_ℤ cost (pos 0) then pos 1 else cost

-- The decision without a count.
abbrev pub uncounted : Bool → EntitlementDecision
uncounted allowed = record {
  allowed = allowed;
  remaining = none;
  limit = none;
  backend_error = false;
}

-- The decision under a positive limit; `none` is a backend that does not answer.
unfoldable pub counted : ℤ → Option ℤ → EntitlementDecision
counted limit none = record {
  allowed = true;
  remaining = none;
  limit = some limit;
  backend_error = true;
}
counted limit (some used) =
    let remaining = max_ℤ (limit -ℤ used) (pos 0) in
    record {
      allowed = leb_ℤ (pos 0) remaining;
      remaining = some remaining;
      limit = some limit;
      backend_error = false;
    }

-- `_increment_usage_db`
unfoldable pub increment_usage_db : Call → Subject → ℤ → Service → Option ℤ × Service
increment_usage_db c a cost s =
    let used = used_before a c.current_date s.tables +ℤ cost in
    if c.usage_up
    then (
      some used,
      record s {
        tables = record (s.tables) {
          usage = insert (usage_key a c.current_date) used s.tables.usage;
        };
      },
    )
    else (none, s)

abbrev first_answer : Option ℤ → Option ℤ → Option ℤ
first_answer none n = n
first_answer (some n) _ = some n

module _ (cfg : Config) (texts : Texts) (server : UsageServer) where
  -- `_redis_key`
  abbrev pub redis_key : Call → Subject → Text
  redis_key c a =
      cfg.redis_prefix
      ++ (codes ":"
          ++ (texts.day c.today
              ++ (codes ":"
                  ++ (texts.uuid a.org
                      ++ (codes ":" ++ (texts.uuid a.user ++ (codes ":" ++ a.action)))))))

  -- `_increment_usage_redis`
  unfoldable pub increment_usage_redis : Call → Subject → ℤ → server.State → Option ℤ × server.State
  increment_usage_redis c a cost r =
      if c.connected
      then server.incrby_expire (redis_key c a) cost (pos (seconds_until_day_end c.now)) r
      else (none, r)

  -- `_increment_usage`: both counters grow, and that of Redis is preferred.
  unfoldable pub increment_usage :
      Call → Subject → ℤ → Service × server.State → Option ℤ × (Service × server.State)
  unfolding increment_usage_redis increment_usage_db
  increment_usage c a cost (s, r) =
      let (redis_count, r') = increment_usage_redis c a cost r in
      let (db_count, s') = increment_usage_db c a cost s in
      (first_answer redis_count db_count, (s', r'))

  -- `_read_usage`: the count of Redis, else that of the table, 0 without a row.
  unfoldable pub read_usage : Call → Subject → Service × server.State → Option ℤ
  read_usage c a (s, r) =
      let snapshot = if c.usage_up then some (used_before a c.current_date s.tables) else none in
      let answer = if c.connected then server.get (redis_key c a) r else none in
      elim answer [ none ↦ snapshot | some none ↦ snapshot | some (some n) ↦ some n ]

  -- `_evaluate` once the limits are known.
  unfoldable pub decide :
      Bool
      → Call
      → Subject
      → ℤ
      → Option LimitValue
      → Service × server.State
      → EntitlementDecision × (Service × server.State)
  unfolding counted increment_usage read_usage
  decide mutate c a cost none w = (uncounted true, w)
  decide mutate c a cost (some (switch b)) w = (uncounted b, w)
  decide mutate c a cost (some (count limit)) w =
      let (used, w') = increment_usage c a cost w in
      if leb_ℤ limit (pos 0)
      then (
        record {
          allowed = false;
          remaining = some (pos 0);
          limit = some limit;
          backend_error = false;
        },
        w,
      )
      else (if mutate then (counted limit used, w') else (counted limit (read_usage c a w), w))

  -- `_evaluate`: `check` without and `consume` with `mutate`.
  unfoldable pub evaluate :
      Bool
      → Call
      → Subject
      → ℤ
      → Service × server.State
      → EntitlementDecision × (Service × server.State)
  unfolding decide
  evaluate mutate c a cost (s, r) =
      let (entitlements, s1) = get cfg c.plan_up c.limits_up a.org s in
      decide mutate c a (charged cost) (lookup a.action entitlements.limits) (s1, r)
