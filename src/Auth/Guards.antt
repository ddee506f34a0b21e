-- ===== src/Auth/Guards.antt =====
-- Validation, rate limits and account bookkeeping shared by the flows of services/auth/common.py.
use ko_finance.Common.{
  ℕ, ◌+◌, ◌-◌, ◌/◌, max, ℤ, pos, Text, codes, text_eq, nonempty, or_text, strip, lower, member,
  Option, none, some, Bool, false, ◌&&◌, not, List, [], ◌∷◌, ◌++◌, ltb, leb, ◌==◌, is_some, find,
  exists, update_where, if◌then◌else◌, or_default, length,
}
use ko_finance.RateLimit.{check_limit}
use ko_finance.PlanTiers.{plan_tiers}
use ko_finance.Auth.Model.{User, AuditNote, MemberRow, Db, Call, Code, AuthError, Effect}
use ko_finance.Auth.Settings.{Settings}
use ko_finance.Auth.Exec.{Action, Result, ok, err, pure, gets, modify, emit, ◌>>=◌, ◌>>◌}
use ko_finance.Auth.Tokens.{record_audit_event, safe_ip_value}

abbrev pub fails : Code → ℕ → AuthError
fails c status = record { code = c; status_code = status }

abbrev pub State : Settings → Type 0
State e = e.redis.State

-- `_normalize_email`
unfoldable pub normalize_email : Text → Result Text
normalize_email email =
    let value = lower (strip email) in
    if nonempty value then ok value else err (fails Code.invalid_payload 400)

-- core/auth/constants.py, `ALLOWED_SIGNUP_CHANNELS`.
abbrev pub signup_channels : List Text
signup_channels =
    codes "email"
    ∷ codes "google"
    ∷ codes "kakao"
    ∷ codes "naver"
    ∷ codes "admin_invite"
    ∷ codes "saml"
    ∷ codes "oidc"
    ∷ codes "scim"
    ∷ []

-- `_normalize_signup_channel`
unfoldable pub normalize_signup_channel : Option Text → Text
normalize_signup_channel channel =
    let candidate = lower (strip (or_text (or_default channel []) (codes "email"))) in
    if member candidate signup_channels then candidate else codes "email"

-- `_normalize_plan_tier_value`
unfoldable pub normalize_plan_tier_value : Option Text → Text → Text
normalize_plan_tier_value value default =
    let fallback = lower (strip (or_text default (codes "free"))) in
    let candidate = lower (strip (or_text (or_default value []) fallback)) in
    if member candidate plan_tiers
    then candidate
    else (if member fallback plan_tiers then fallback else codes "free")

-- `_validate_password_strength`
unfoldable pub validate_password_strength : Settings → Text → Option AuthError
validate_password_strength e p =
    if ltb (length p) e.password_min_length
    then some (fails Code.invalid_password 400)
    else (if e.require_upper && not (e.has_upper p)
        then some (fails Code.invalid_password 400)
        else (if e.require_lower && not (e.has_lower p)
            then some (fails Code.invalid_password 400)
            else (if e.require_digit && not (e.has_digit p)
                then some (fails Code.invalid_password 400)
                else (if e.require_symbol && not (e.has_symbol p)
                    then some (fails Code.invalid_password 400)
                    else none))))

-- `_hash_password`
unfoldable pub hash_password : Settings → Call → Text → Result Text
unfolding validate_password_strength
hash_password e c p = elim (validate_password_strength e p) [
  | none ↦ ok (e.hash c.salt p)
  | some x ↦ err x
]

abbrev pub lift : {S A : Type 0} → Result A → Action S A
lift r w = (r, w)

-- The seconds of the `Retry-After` header.
abbrev pub retry_after : ℕ → Option ℕ → ℕ
retry_after now none = 60
retry_after now (some reset) = max (reset - now) 1

-- `_enforce_rate_limit`
unfoldable pub enforce_rate_limit :
    (e : Settings) → Call → Text → Option Text → ℤ → ℤ → Action (State e) (Unit {0})
enforce_rate_limit e c scope identifier limit window w =
    let (result, s) =
      check_limit e.redis e.redis_connected c.now e.redis_prefix scope identifier limit window
        (pos 1) w.redis in
    (
      if result.allowed
          then ok tt
          else err (fails (Code.rate_limited (retry_after c.now result.reset_at)) 429),
      record w { redis = s },
    )

-- `UPDATE "users" SET … WHERE id = :id`
abbrev pub set_user : ℕ → (User → User) → Db → Db
set_user id f d = record d { users = update_where (λ u. u.id == id) f d.users }

-- When the account is locked after `attempts` failures.
abbrev pub lock_until : Settings → ℕ → ℕ → Option ℕ
lock_until e attempts now =
    if leb e.login_failure_limit attempts then some (now + e.account_lock_seconds) else none

-- `_handle_failed_attempt`; without a user it returns at once.
unfoldable pub handle_failed_attempt :
    (e : Settings) → Call → Option User → Action (State e) (Unit {0})
unfolding record_audit_event
handle_failed_attempt e c none = pure tt
handle_failed_attempt e c (some u) = do
  let attempts = u.failed_attempts + 1
  let locked = lock_until e attempts c.now
  modify (set_user u.id (λ v. record v { failed_attempts = attempts; locked_until = locked }))
  record_audit_event e c (if is_some locked then codes "lock" else codes "login_failed") (some u.id)
      (codes "email") (AuditNote.attempts_note attempts)
  if is_some locked
      then emit (Effect.locked_mail u.email (max (e.account_lock_seconds / 60) 1))
      else pure tt

-- `_revoke_expired_sessions`
unfoldable pub revoke_expired_sessions : {S : Type 0} → Call → ℕ → Action S (Unit {0})
revoke_expired_sessions c user = modify (λ d. record d {
  sessions =
      update_where
        (λ s. s.user_id == user && (not (is_some s.revoked_at) && ltb s.expires_at c.now))
        (λ s. record s { revoked_at = some c.now }) d.sessions;
})

-- `_mark_login_success`
unfoldable pub mark_login_success : {S : Type 0} → Settings → Call → ℕ → Action S (Unit {0})
mark_login_success e c user = modify (
    set_user user (λ u. record u {
      failed_attempts = 0;
      locked_until = none;
      last_login_at = some c.now;
      last_login_ip = safe_ip_value e c.ip;
    }))

-- services/onboarding_service.py, `ensure_first_login_metadata`.
unfoldable pub ensure_first_login_metadata : {S : Type 0} → Call → ℕ → Action S Bool
ensure_first_login_metadata c user = do
  row ← gets (λ d. find (λ u. u.id == user) d.users)
  elim row [
    | none ↦ pure false
    | some u ↦
        (if is_some u.first_login_at
          then pure tt
          else modify (set_user user (λ v. record v { first_login_at = some c.now })))
        >> pure (not (is_some u.onboarded_at))
  ]

abbrev pub is_active_member : ℕ → MemberRow → Bool
is_active_member user m = m.user_id == user && text_eq m.status (codes "active")

-- The rows of a new personal organisation; a conflict on a key leaves the table alone.
abbrev pub add_default_org : ℕ → ℕ → Db → Db
add_default_org org user d = record d {
  orgs = if exists (λ o. o == org) d.orgs then d.orgs else d.orgs ++ org ∷ [];
  members =
      if exists (λ m. m.org_id == org && m.user_id == user) d.members
      then d.members
      else d.members
        ++ record {
          org_id = org;
          user_id = user;
          role_key = codes "admin";
          status = codes "active";
        }
          ∷ [];
}

-- `_ensure_default_org`
unfoldable pub ensure_default_org : {S : Type 0} → Call → ℕ → Action S ℕ
ensure_default_org c user = do
  existing ← gets (λ d. find (is_active_member user) d.members)
  elim existing [
    | some m ↦ pure m.org_id
    | none ↦
        modify (add_default_org c.new_org user)
        >> (emit (Effect.org_audited c.new_org user)
            >> (emit (Effect.workspace_bootstrapped c.new_org user) >> pure c.new_org))
  ]

-- `_ensure_org_subscription`: the call that it makes of the entitlement service.
unfoldable pub ensure_org_subscription : {S : Type 0} → ℕ → Option Text → Action S (Unit {0})
ensure_org_subscription org slug =
    emit (Effect.subscription_ensured org (normalize_plan_tier_value slug (codes "free")))
