-- ===== src/Entitlement/Tests.antt =====
-- The entitlement service on a table of one plan and a Redis server of counters.
use ko_finance.Common.{
  ℤ, pos, ◌+ℤ◌, Text, codes, text_eq, normalize, lstrip, rstrip, strip, is_space, lower, lookup,
  nat_keys, text_keys, pair_keys, null, Option, none, some, true, false, ◌≡◌, refl, [], ◌∷◌,
}
use ko_finance.Entitlement.{
  count, Config, Service, Tables, get, resolve_plan_slug, resolved_slug, select_slug,
  load_plan_limits, apply_rows, default_plan_limits, select_entitlements,
}
use ko_finance.Entitlement.Billing.{BillingEvent, ensure_plan, sync_subscription_from_billing}
use ko_finance.Entitlement.Usage.{UsageServer, Call, Texts, Subject, evaluate, usage_key}
use ko_finance.Entitlement.Quota.{enforce_quota}
use ko_finance.Entitlement.Decision.{consume_adds_usage, enforce_quota_by_plan}

abbrev counters : UsageServer
counters = record {
  State = Text → Option ℤ;
  get = λ k s. some (s k);
  incrby_expire = λ k n t s. (some n, s);
}

abbrev cfg : Config
cfg = record {
  default_plan_slug = codes "free";
  default_period_days = 30;
  redis_prefix = codes "ent";
}

abbrev texts : Texts
texts = record { uuid = λ n. n ∷ []; day = λ n. n ∷ [] }

abbrev one_plan : Tables
one_plan = record {
  plans = record { id = 1; slug = codes "pro"; name = codes "Pro" } ∷ [];
  next_plan = 2;
  subscriptions =
      (
        7,
        record {
          plan_id = 1;
          status = codes "active";
          current_period_end = 900;
          metadata = null;
          updated_at = 0;
        },
      )
      ∷ [];
  entitlements = [];
  usage = (usage_key (record { org = 7; user = 3; action = codes "rag.chat" }) 20, pos 600) ∷ [];
}

abbrev service : Service
service = record { plan_cache = []; org_plan_cache = []; tables = one_plan }

abbrev call : Call
call = record {
  plan_up = true;
  limits_up = true;
  usage_up = true;
  connected = false;
  now = 100;
  today = 20;
  current_date = 20;
}

abbrev chat : Subject
chat = record { org = 7; user = 3; action = codes "rag.chat" }

abbrev no_counts : Text → Option ℤ
no_counts k = none

abbrev limits : Unit {0}
unfolding get resolve_plan_slug resolved_slug select_slug load_plan_limits apply_rows
    default_plan_limits select_entitlements lookup text_eq normalize strip lstrip rstrip is_space
    lower
limits = tt

pro_limit :
    lookup (codes "rag.chat") (get cfg true true 7 service).0.limits ≡ some (count (pos 500))
unfolding limits
pro_limit = refl

enforce_quota_by_plan_example :
    (enforce_quota cfg texts counters call
      (codes "rag.chat")
      (some 3)
      (some 7)
      (pos 1)
      (service, no_counts)).0
    ≡ none
unfolding limits
enforce_quota_by_plan_example =
    enforce_quota_by_plan cfg texts counters call (codes "rag.chat") 3 7 (pos 1) service no_counts

consume_adds_usage_example :
    lookup
      (usage_key chat 20)
      (evaluate cfg texts counters true call chat (pos 2) (service, no_counts)).1.0.tables.usage
    ≡ some (pos 602)
unfolding lookup text_eq ◌+ℤ◌
consume_adds_usage_example =
    consume_adds_usage cfg texts counters call chat (pos 2) (pos 500) service no_counts
      (usage_key chat 20) pro_limit refl refl

abbrev paid : BillingEvent
paid = record {
  plan_slug = codes " Starter";
  status = codes "Done";
  current_period_end = none;
  metadata = none;
}

-- A payment does not reach the table of subscriptions.
paid_not_written : sync_subscription_from_billing cfg true 100 7 paid service ≡ (false, service)
unfolding limits sync_subscription_from_billing ensure_plan
paid_not_written = refl

paid_plan_is_used : (resolve_plan_slug cfg true 7 service).0 ≡ codes "pro"
unfolding limits
paid_plan_is_used = refl
