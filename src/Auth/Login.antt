-- ===== src/Auth/Login.antt =====
-- Login (services/auth/common.py, `LoginUserUseCase` and `_issue_login_result`).
use ko_finance.Common.{
  ℕ, ◌+◌, Text, codes, nonempty, Option, none, some, Bool, true, false, not, [], ◌∷◌, ◌++◌, ltb,
  is_some, find, if◌then◌else◌, or_default,
}
use ko_finance.Auth.Model.{User, SessionRow, AuditNote, Call, Code, has_email}
use ko_finance.Auth.Settings.{Settings, Profile}
use ko_finance.Auth.Exec.{Action, pure, raise, gets, modify, transaction, ◌>>=◌, ◌>>◌}
use ko_finance.Auth.Tokens.{
  record_audit_event, safe_ip_value, create_access_token, create_refresh_token,
}
use ko_finance.Auth.Guards.{
  State, fails, lift, normalize_email, enforce_rate_limit, handle_failed_attempt,
  revoke_expired_sessions, mark_login_success, ensure_first_login_metadata, ensure_default_org,
  ensure_org_subscription,
}

pub record LoginPayload : Type 0 where
  pub email : Text
  pub password : Text
  pub remember_me : Bool

pub record LoginResult : Type 0 where
  pub access_token : ℕ
  pub refresh_token : ℕ
  pub expires_in : ℕ
  pub session_id : ℕ
  pub session_token : ℕ
  pub user_id : ℕ
  pub profile : Profile
  pub org_id : Option ℕ
  pub onboarding_required : Bool

-- `user["password_hash"]` is there and not empty.
abbrev pub has_password : User → Bool
has_password u = nonempty (or_default u.password_hash [])

abbrev pub is_locked : ℕ → User → Bool
is_locked now u = elim u.locked_until [ none ↦ false | some t ↦ ltb now t ]

-- `_hash_user_agent`
abbrev pub hash_user_agent : Settings → Option Text → Option ℕ
hash_user_agent e agent =
    if nonempty (or_default agent []) then some (e.agent_digest (or_default agent [])) else none

-- The row that a login inserts into `session_tokens`.
abbrev pub session_row : Settings → Call → ℕ → Text → Bool → ℕ → SessionRow
session_row e c user channel remember expires = record {
  id = c.new_session;
  user_id = user;
  session_token = c.session_secret;
  refresh_jti = c.new_jti;
  device_label = channel;
  ip = safe_ip_value e c.ip;
  user_agent_hash = hash_user_agent e c.user_agent;
  expires_at = expires;
  revoked_at = none;
  last_used_at = none;
  remember_me = remember;
}

-- `_REMEMBER_REFRESH_TTL if remember_me else None`
abbrev pub ttl_override : Settings → Bool → Option ℕ
ttl_override e remember = if remember then some e.remember_refresh_ttl else none

-- `_issue_login_result`
unfoldable pub issue_login_result :
    {S : Type 0}
    → Settings
    → Call
    → ℕ
    → Profile
    → Text
    → Bool
    → Bool
    → Option ℕ
    → Action S LoginResult
unfolding create_access_token create_refresh_token record_audit_event
issue_login_result e c user profile channel remember onboarding org = do
  let (access_token, access_ttl) = create_access_token e c user profile (some c.new_session)
  let (refresh_token, refresh_ttl) =
      create_refresh_token e c user c.new_session c.new_jti (ttl_override e remember)
  modify (λ d. record d {
    sessions = d.sessions ++ session_row e c user channel remember (c.now + refresh_ttl) ∷ [];
  })
  record_audit_event e c (codes "login_success") (some user) channel AuditNote.no_note
  pure (record {
    access_token = access_token;
    refresh_token = refresh_token;
    expires_in = access_ttl;
    session_id = c.new_session;
    session_token = c.session_secret;
    user_id = user;
    profile = profile;
    org_id = org;
    onboarding_required = onboarding;
  })

-- `_load_user`, on the row that the query finds.
unfoldable pub load_user : (e : Settings) → Call → Option User → Action (State e) User
load_user e c none = handle_failed_attempt e c none >> raise (fails Code.invalid_credentials 401)
load_user e c (some u) =
    if has_password u
    then pure u
    else (handle_failed_attempt e c (some u) >> raise (fails Code.invalid_credentials 401))

-- `_verify_credentials`
unfoldable pub verify_credentials :
    (e : Settings) → Call → User → Text → Action (State e) (Unit {0})
verify_credentials e c u password =
    if is_locked c.now u
    then raise (fails Code.account_locked 423)
    else (if not (e.verify (or_default u.password_hash []) password)
        then (handle_failed_attempt e c (some u) >> raise (fails Code.invalid_credentials 401))
        else (if is_some u.email_verified_at
            then pure tt
            else raise (fails Code.needs_verification 403)))

abbrev pub login_profile : User → Profile
login_profile u = record {
  email = u.email;
  plan = u.plan_tier;
  role = u.role;
  email_verified = true;
}

-- The steps after the credentials have been accepted.
unfoldable pub open_session : (e : Settings) → Call → User → Bool → Action (State e) LoginResult
unfolding revoke_expired_sessions mark_login_success ensure_default_org ensure_first_login_metadata
    issue_login_result
open_session e c u remember = do
  revoke_expired_sessions c u.id
  mark_login_success e c u.id
  org ← ensure_default_org c u.id
  onboarding ← ensure_first_login_metadata c u.id
  issue_login_result e c u.id (login_profile u) (codes "email") remember onboarding (some org)

-- The block under `with self.session.begin()`.
unfoldable pub login_block :
    (e : Settings) → Call → Text → Text → Bool → Action (State e) LoginResult
unfolding load_user verify_credentials open_session
login_block e c email password remember = do
  row ← gets (λ d. find (has_email email) d.users)
  u ← load_user e c row
  verify_credentials e c u password
  open_session e c u remember

-- `LoginUserUseCase._enforce_limits`
unfoldable pub login_limits : (e : Settings) → Call → Text → Action (State e) (Unit {0})
login_limits e c email = do
  enforce_rate_limit e c (codes "auth.login.ip") c.ip e.login_ip_limit e.login_ip_window
  enforce_rate_limit e c (codes "auth.login.email") (some email) e.login_email_limit
      e.login_email_window

-- The subscription call that follows the transaction.
abbrev pub after_login : {S : Type 0} → LoginResult → Action S LoginResult
after_login r = elim r.org_id [
  | none ↦ pure r
  | some org ↦ ensure_org_subscription org (some r.profile.plan) >> pure r
]

-- `login_user`
unfoldable pub login_user : (e : Settings) → Call → LoginPayload → Action (State e) LoginResult
login_user e c p = do
  email ← lift (normalize_email p.email)
  login_limits e c email
  r ← transaction (login_block e c email p.password p.remember_me)
  after_login r
