-- ===== src/Auth/Accounts.antt =====
-- Registration, e-mail verification, password reset and account unlock (services/auth/common.py).
use ko_finance.Common.{
  ℕ, pos, Text, codes, nonempty, or_text, some_text, strip, Option, none, some, Bool, true, ◌&&◌,
  not, [], ◌∷◌, ◌++◌, leb, ◌==◌, is_some, find, update_where, if◌then◌else◌, or_else,
}
use ko_finance.Auth.Model.{User, TokenType, AuditNote, Db, Call, Code, AuthError, Effect, has_email}
use ko_finance.Auth.Settings.{Settings}
use ko_finance.Auth.Exec.{
  Action, ok, err, pure, raise, raise_if, gets, or_raise, modify, emit, transaction, ◌>>=◌, ◌>>◌,
}
use ko_finance.Auth.Tokens.{record_audit_event, consume_magic_token, issue_token_with_audit}
use ko_finance.Auth.Guards.{
  State, fails, lift, set_user, normalize_email, normalize_signup_channel, enforce_rate_limit,
  hash_password, ensure_default_org, ensure_org_subscription,
}
use ko_finance.Auth.Login.{has_password}

-- Absent texts of the payload are empty.
pub record RegisterPayload : Type 0 where
  pub email : Text
  pub password : Text
  pub name : Text
  pub signup_channel : Option Text
  pub accept_terms : Bool

pub record RegisterResult : Type 0 where
  pub user_id : ℕ
  pub verification_expires_in : ℕ

-- The row that a registration inserts into `"users"`.
abbrev pub new_user : Call → Text → Option Text → Text → Text → User
new_user c email name hashed channel = record {
  id = c.new_user;
  email = email;
  name = name;
  password_hash = some hashed;
  signup_channel = channel;
  password_updated_at = none;
  email_verified_at = none;
  failed_attempts = 0;
  locked_until = none;
  plan_tier = codes "free";
  role = codes "user";
  last_login_at = none;
  last_login_ip = none;
  first_login_at = none;
  onboarded_at = none;
}

-- The branches of `_persist_user` on the row of the address; the answer is the user's id.
unfoldable pub save_user :
    {S : Type 0} → Call → Text → Option Text → Text → Text → Option User → Action S ℕ
save_user c email name hashed channel none =
    modify (λ d. record d { users = d.users ++ new_user c email name hashed channel ∷ [] })
    >> pure c.new_user
save_user c email name hashed channel (some u) =
    if has_password u
    then raise (fails Code.email_taken 409)
    else (modify (
          set_user u.id (λ v. record v {
            password_hash = some hashed;
            signup_channel = channel;
            password_updated_at = some c.now;
          }))
        >> pure u.id)

-- The block of `_persist_user` under `with self.session.begin()`: the user, the org and the token.
unfoldable pub register_block :
    {S : Type 0} → Settings → Call → Text → Text → Option Text → Text → Text → Action S (ℕ × ℕ × ℕ)
unfolding save_user ensure_default_org issue_token_with_audit
register_block e c key email name hashed channel = do
  existing ← gets (λ d. find (has_email key) d.users)
  user ← save_user c email name hashed channel existing
  org ← ensure_default_org c user
  token ←
      issue_token_with_audit e c user TokenType.email_verify key e.email_verify_ttl
        (codes "register") channel none
  pure (user, org, token.token)

-- `RegisterUserUseCase.execute`, on the address that the constructor has normalized.
unfoldable pub execute_register :
    (e : Settings) → Call → RegisterPayload → Text → Action (State e) RegisterResult
execute_register e c p email = do
  let raw_email = strip p.email
  raise_if (not p.accept_terms) (fails Code.invalid_payload 400)
  raise_if (not (nonempty p.password)) (fails Code.invalid_payload 400)
  enforce_rate_limit e c (codes "auth.register.ip") c.ip (pos 5) (pos 600)
  enforce_rate_limit e c (codes "auth.register.email") (some email) (pos 3) (pos 3600)
  hashed ← lift (hash_password e c p.password)
  saved ← transaction (
      register_block e c email raw_email (some_text (strip p.name)) hashed
        (normalize_signup_channel p.signup_channel))
  let (user, org, token) = saved
  ensure_org_subscription org (some (codes "free"))
  emit (Effect.verification_mail (or_text raw_email email) token)
  pure (record { user_id = user; verification_expires_in = e.email_verify_ttl })

-- `register_user`
unfoldable pub register_user :
    (e : Settings) → Call → RegisterPayload → Action (State e) RegisterResult
unfolding execute_register
register_user e c p = do
  email ← lift (normalize_email (strip p.email))
  execute_register e c p email

-- `except AuthTokenError`: the flow's status for a token that was refused.
abbrev pub token_refused : Code → AuthError
token_refused Code.token_expired = fails Code.token_expired 410
token_refused c = fails c 400

abbrev pub reraise : {S A : Type 0} → Action S A → Action S A
reraise m w =
    let (r, w') = m w in elim r [ ok a ↦ (ok a, w') | err x ↦ (err (token_refused x.code), w') ]

-- `verify_email`
unfoldable pub verify_email : {S : Type 0} → Settings → Call → ℕ → Action S Bool
unfolding consume_magic_token record_audit_event transaction
verify_email e c token = transaction (do
  magic ← reraise (consume_magic_token e c token TokenType.email_verify)
  modify (
      set_user magic.user_id
        (λ u. record u { email_verified_at = or_else u.email_verified_at (some c.now) }))
  record_audit_event e c (codes "email_verify") (some magic.user_id) (codes "email")
      (AuditNote.token_note magic.id)
  pure true)

-- `resend_verification_email`
unfoldable pub resend_verification_email : (e : Settings) → Call → Text → Action (State e) Bool
resend_verification_email e c address = do
  email ← lift (normalize_email address)
  enforce_rate_limit e c (codes "auth.verify_resend.ip") c.ip (pos 5) (pos 600)
  enforce_rate_limit e c (codes "auth.verify_resend.email") (some email) (pos 3) (pos 3600)
  mail ← transaction (do
    row ← gets (λ d. find (has_email email) d.users)
    u ← or_raise row (fails Code.user_not_found 404)
    raise_if (is_some u.email_verified_at) (fails Code.already_verified 409)
    token ←
        issue_token_with_audit e c u.id TokenType.email_verify email e.email_verify_ttl
          (codes "email_verify") (codes "email") (some (codes "resend"))
    pure (u.email, token.token))
  let (recipient, token) = mail
  if nonempty recipient then emit (Effect.verification_mail recipient token) else pure tt
  pure true

-- `request_password_reset`
unfoldable pub request_password_reset : (e : Settings) → Call → Text → Action (State e) Bool
request_password_reset e c address = do
  email ← lift (normalize_email address)
  enforce_rate_limit e c (codes "auth.password_reset.email") (some email) (pos 5) (pos 1800)
  mail ← transaction (do
    row ← gets (λ d. find (has_email email) d.users)
    u ← or_raise row (fails Code.user_not_found 404)
    raise_if (not (is_some u.email_verified_at)) (fails Code.needs_verification 409)
    token ←
        issue_token_with_audit e c u.id TokenType.password_reset email e.password_reset_ttl
          (codes "password_reset_request") (codes "email") none
    pure (u.email, token.token))
  let (recipient, token) = mail
  if nonempty recipient then emit (Effect.reset_mail recipient token) else pure tt
  pure true

-- `UPDATE session_tokens SET revoked_at = NOW() WHERE user_id = :user_id AND revoked_at IS NULL`
abbrev pub revoke_sessions : ℕ → ℕ → Db → Db
revoke_sessions user now d = record d {
  sessions =
      update_where (λ s. s.user_id == user && not (is_some s.revoked_at))
        (λ s. record s { revoked_at = some now }) d.sessions;
}

-- `confirm_password_reset`
unfoldable pub confirm_password_reset : {S : Type 0} → Settings → Call → ℕ → Text → Action S Bool
confirm_password_reset e c token password = do
  hashed ← lift (hash_password e c password)
  transaction (do
    magic ← reraise (consume_magic_token e c token TokenType.password_reset)
    modify (
        set_user magic.user_id (λ u. record u {
          password_hash = some hashed;
          password_updated_at = some c.now;
          failed_attempts = 0;
          locked_until = none;
        }))
    modify (revoke_sessions magic.user_id c.now)
    record_audit_event e c (codes "password_reset") (some magic.user_id) (codes "email")
        (AuditNote.token_note magic.id)
    pure true)

-- `not locked_until or locked_until <= now`
abbrev pub not_locked : ℕ → User → Bool
not_locked now u = elim u.locked_until [ none ↦ true | some t ↦ leb t now ]

-- `request_account_unlock`
unfoldable pub request_account_unlock : (e : Settings) → Call → Text → Action (State e) Bool
request_account_unlock e c address = do
  email ← lift (normalize_email address)
  enforce_rate_limit e c (codes "auth.unlock.ip") c.ip (pos 5) (pos 600)
  enforce_rate_limit e c (codes "auth.unlock.email") (some email) (pos 3) (pos 1800)
  mail ← transaction (do
    row ← gets (λ d. find (has_email email) d.users)
    u ← or_raise row (fails Code.user_not_found 404)
    raise_if (not_locked c.now u) (fails Code.unlock_not_required 409)
    token ←
        issue_token_with_audit e c u.id TokenType.account_unlock email e.account_unlock_ttl
          (codes "lock") (codes "email") (some (codes "unlock_requested"))
    pure (u.email, token.token))
  let (recipient, token) = mail
  if nonempty recipient then emit (Effect.unlock_mail recipient token) else pure tt
  pure true

-- `confirm_account_unlock`
unfoldable pub confirm_account_unlock : {S : Type 0} → Settings → Call → ℕ → Action S Bool
confirm_account_unlock e c token = transaction (do
  magic ← reraise (consume_magic_token e c token TokenType.account_unlock)
  modify (set_user magic.user_id (λ u. record u { failed_attempts = 0; locked_until = none }))
  record_audit_event e c (codes "unlock") (some magic.user_id) (codes "email")
      (AuditNote.token_note magic.id)
  pure true)
