-- ===== src/Auth/Settings.antt =====
-- What services/auth/common.py and services/auth_tokens.py take from outside the repository (password
-- hashing, JWT, digests, patterns) and from the environment, as one record that every call is given.
use ko_finance.Common.{ℕ, ℤ, Text, Option, Bool}
use ko_finance.RateLimit.{Redis}

-- The claims of an access or a refresh token; `profile` holds those of an access token alone.
pub record Profile : Type 0 where
  pub email : Text
  pub plan : Text
  pub role : Text
  pub email_verified : Bool

pub data Scope : Type 0 where
  access refresh : Scope

pub record Claims : Type 0 where
  pub sub : ℕ
  pub aud : Text
  pub iss : Text
  pub scope : Scope
  pub session_id : Option ℕ
  pub jti : ℕ
  pub iat : ℕ
  pub exp : ℕ
  pub profile : Option Profile

-- What `jwt.decode` does with a token: it raises `ExpiredSignatureError` or another
-- `InvalidTokenError`, or it returns the claims.
pub data Decoded : Type 0 where
  expired invalid : Decoded
  claims : Claims → Decoded

pub record Settings : Type 1 where
  pub redis : Redis
  pub redis_connected : Bool
  pub redis_prefix : Text
  -- Argon2: `hash salt password` and `verify stored password`.
  pub hash : ℕ → Text → Text
  pub verify : Text → Text → Bool
  -- SHA-256 of a secret and of a user agent.
  pub token_digest : ℕ → ℕ
  pub agent_digest : Text → ℕ
  -- `ipaddress.ip_address` accepts the text.
  pub is_ip : Text → Bool
  -- JWT under the configured key; `jwt_decode audience issuer now token`.
  pub jwt_encode : Claims → ℕ
  pub jwt_decode : Text → Text → ℕ → ℕ → Decoded
  -- `\.search` of the patterns of the password policy.
  pub has_upper : Text → Bool
  pub has_lower : Text → Bool
  pub has_digit : Text → Bool
  pub has_symbol : Text → Bool
  -- The environment variables.
  pub jwt_audience : Text
  pub jwt_issuer : Text
  pub access_ttl : ℕ
  pub refresh_ttl : ℕ
  pub remember_refresh_ttl : ℕ
  pub email_verify_ttl : ℕ
  pub password_reset_ttl : ℕ
  pub account_unlock_ttl : ℕ
  pub login_failure_limit : ℕ
  pub account_lock_seconds : ℕ
  pub login_ip_limit : ℤ
  pub login_ip_window : ℤ
  pub login_email_limit : ℤ
  pub login_email_window : ℤ
  pub password_min_length : ℕ
  pub require_upper : Bool
  pub require_lower : Bool
  pub require_digit : Bool
  pub require_symbol : Bool
