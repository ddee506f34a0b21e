-- ===== src/Entitlement/Quota.antt =====
-- The callers of the entitlement service: services/quota_guard.py, services/id_utils.py and
-- web/quota_guard.py.
use ko_finance.Common.{
  ℕ, ℤ, pos, leb_ℤ, max_ℤ, Text, nat_keys, text_keys, pair_keys, Option, none, some, or_default,
  Bool, true, ◌&&◌, ◌||◌, if◌then◌else◌,
}
use ko_finance.Entitlement.{Config, Service}
use ko_finance.Entitlement.Usage.{UsageServer, Call, Texts, EntitlementDecision, evaluate}

-- `resolve_subject`, on what `normalize_uuid` answers for the user and for the organization.
unfoldable pub resolve_subject : Option ℕ → Option ℕ → Option (ℕ × ℕ)
resolve_subject none none = none
resolve_subject none (some org) = some (org, org)
resolve_subject (some user) none = some (user, user)
resolve_subject (some user) (some org) = some (user, org)

-- The status and the code of the problem that `_raise_quota_exception` raises.
pub data QuotaError : Type 0 where
  quota_unavailable quota_exceeded : QuotaError

abbrev pub quota_error : EntitlementDecision → QuotaError
quota_error d =
    if leb_ℤ (or_default d.limit (pos 0)) (pos 0) && leb_ℤ (pos 0) (or_default d.limit (pos 0))
    then QuotaError.quota_unavailable
    else QuotaError.quota_exceeded

abbrev pub status_code : QuotaError → ℕ
status_code QuotaError.quota_unavailable = 403
status_code QuotaError.quota_exceeded = 429

abbrev pub passes : Option EntitlementDecision → Bool
passes none = true
passes (some d) = d.allowed || d.backend_error

abbrev pub refusal : Option EntitlementDecision → Option QuotaError
refusal none = none
refusal (some d) = if d.backend_error || d.allowed then none else some (quota_error d)

module _ (cfg : Config) (texts : Texts) (server : UsageServer) where
  -- `evaluate_quota`
  unfoldable pub evaluate_quota :
      Call
      → Text
      → Option ℕ
      → Option ℕ
      → ℤ
      → Service × server.State
      → Option EntitlementDecision × (Service × server.State)
  unfolding evaluate resolve_subject
  evaluate_quota c action user_id org_id cost w = elim (resolve_subject user_id org_id) [
    | none ↦ (none, w)
    | some (user, org) ↦
        let (decision, w') =
          evaluate cfg texts server true c (record { org = org; user = user; action = action })
            (max_ℤ cost (pos 1)) w in
        (some decision, w')
  ]

  -- `consume_quota`
  unfoldable pub consume_quota :
      Call
      → Text
      → Option ℕ
      → Option ℕ
      → ℤ
      → Service × server.State
      → Bool × (Service × server.State)
  unfolding evaluate_quota
  consume_quota c action user_id org_id cost w =
      let (decision, w') = evaluate_quota c action user_id org_id cost w in (passes decision, w')

  -- web/quota_guard.py, `enforce_quota`: the error that it raises, if any.
  unfoldable pub enforce_quota :
      Call
      → Text
      → Option ℕ
      → Option ℕ
      → ℤ
      → Service × server.State
      → Option QuotaError × (Service × server.State)
  unfolding evaluate_quota
  enforce_quota c action none none cost w = (none, w)
  enforce_quota c action (some user) org_id cost w =
      let (decision, w') = evaluate_quota c action (some user) org_id cost w in
      (refusal decision, w')
  enforce_quota c action none (some org) cost w =
      let (decision, w') = evaluate_quota c action none (some org) cost w in (refusal decision, w')
