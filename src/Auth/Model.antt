-- ===== src/Auth/Model.antt =====
-- The tables and values of services/auth/common.py and services/auth_tokens.py. Row ids, secrets and
-- their digests are only compared, so they are numbers; an instant is a number of seconds.
use ko_finance.Common.{ℕ, Text, Option, List, Bool, true, false, text_eq, lower}

-- core/auth/constants.py, `AuthTokenType`.
pub data TokenType : Type 0 where
  email_verify password_reset email_change account_unlock : TokenType

abbrev pub same_type : TokenType → TokenType → Bool
same_type TokenType.email_verify TokenType.email_verify = true
same_type TokenType.password_reset TokenType.password_reset = true
same_type TokenType.email_change TokenType.email_change = true
same_type TokenType.account_unlock TokenType.account_unlock = true
same_type _ _ = false

-- The columns of `"users"` that these flows read or write.
pub record User : Type 0 where
  pub id : ℕ
  pub email : Text
  pub name : Option Text
  pub password_hash : Option Text
  pub signup_channel : Text
  pub password_updated_at : Option ℕ
  pub email_verified_at : Option ℕ
  pub failed_attempts : ℕ
  pub locked_until : Option ℕ
  pub plan_tier : Text
  pub role : Text
  pub last_login_at : Option ℕ
  pub last_login_ip : Option Text
  pub first_login_at : Option ℕ
  pub onboarded_at : Option ℕ

-- A row of `auth_tokens`; of the metadata the flows write only the address.
pub record TokenRow : Type 0 where
  pub id : ℕ
  pub user_id : ℕ
  pub token_hash : ℕ
  pub token_type : TokenType
  pub identifier : Text
  pub expires_at : ℕ
  pub used_at : Option ℕ
  pub metadata_ip : Option Text

-- A row of `session_tokens`.
pub record SessionRow : Type 0 where
  pub id : ℕ
  pub user_id : ℕ
  pub session_token : ℕ
  pub refresh_jti : ℕ
  pub device_label : Text
  pub ip : Option Text
  pub user_agent_hash : Option ℕ
  pub expires_at : ℕ
  pub revoked_at : Option ℕ
  pub last_used_at : Option ℕ
  pub remember_me : Bool

-- The metadata that an audit row of these flows carries.
pub data AuditNote : Type 0 where
  no_note : AuditNote
  token_note : ℕ → AuditNote
  action_note : Text → ℕ → AuditNote
  attempts_note : ℕ → AuditNote
  all_devices_note : AuditNote
  session_note : ℕ → AuditNote

-- A row of `audit_auth_events`.
pub record AuditRow : Type 0 where
  pub user_id : Option ℕ
  pub event_type : Text
  pub channel : Text
  pub ip : Option Text
  pub user_agent : Option Text
  pub note : AuditNote

-- A row of `user_orgs`, with the columns that `_ensure_default_org` reads and writes.
pub record MemberRow : Type 0 where
  pub org_id : ℕ
  pub user_id : ℕ
  pub role_key : Text
  pub status : Text

-- The database behind one SQLAlchemy session. Rows are listed in the order of `created_at`.
pub record Db : Type 0 where
  pub users : List User
  pub tokens : List TokenRow
  pub sessions : List SessionRow
  pub audits : List AuditRow
  pub orgs : List ℕ
  pub members : List MemberRow

-- `RequestContext`, and the values that a call draws: the clock, random secrets and new row ids.
pub record Call : Type 0 where
  pub ip : Option Text
  pub user_agent : Option Text
  pub now : ℕ
  pub salt : ℕ
  pub secret : ℕ
  pub new_user : ℕ
  pub new_token : ℕ
  pub new_session : ℕ
  pub new_jti : ℕ
  pub access_jti : ℕ
  pub session_secret : ℕ
  pub new_org : ℕ

-- The `code` of an `AuthServiceError` or an `AuthTokenError`.
pub data Code : Type 0 where
  invalid_payload invalid_password email_taken invalid_credentials account_locked : Code
  needs_verification token_invalid token_consumed token_expired session_invalid : Code
  session_expired user_not_found already_verified unlock_not_required : Code
  rate_limited : ℕ → Code

pub record AuthError : Type 0 where
  pub code : Code
  pub status_code : ℕ

-- What a call does outside its database transaction: mails, and calls of other services, which
-- open sessions of their own.
pub data Effect : Type 0 where
  verification_mail reset_mail unlock_mail : Text → ℕ → Effect
  locked_mail : Text → ℕ → Effect
  org_audited workspace_bootstrapped : ℕ → ℕ → Effect
  subscription_ensured : ℕ → Text → Effect

-- The names under which one user is found: `WHERE LOWER(email) = :email` and `WHERE id = :id`.
abbrev pub has_email : Text → User → Bool
has_email e u = text_eq (lower u.email) e
