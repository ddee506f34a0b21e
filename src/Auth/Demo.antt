-- ===== src/Auth/Demo.antt =====
-- A small installation with one account.
use ko_finance.Common.{ℕ, pos, true, false, none, some, [], ◌∷◌, codes, text_eq, length, or_default}
use ko_finance.Auth.Model.{User, TokenRow, TokenType, SessionRow, Db, Call}
use ko_finance.Auth.Settings.{Settings, Claims, Decoded, Scope}
use ko_finance.Auth.Exec.{World}
use ko_finance.Auth.Login.{LoginPayload, LoginResult, login_profile}

-- A token is the code of its claims: the session, the identifier and the user, in base 100.
abbrev encode : Claims → ℕ
encode p = or_default p.session_id 0

abbrev pub demo_claims : ℕ → ℕ → Claims
demo_claims now token = record {
  sub = 7;
  aud = codes "dashboard";
  iss = codes "kfinance-auth";
  scope = Scope.refresh;
  session_id = some token;
  jti = 50;
  iat = 0;
  exp = 0;
  profile = none;
}

abbrev pub demo : Settings
demo = record {
  redis = record { State = Unit {0}; incrby_ttl = λ k w s. (none, s); expire = λ k t s. (true, s) };
  redis_connected = false;
  redis_prefix = codes "auth";
  hash = λ salt p. p;
  verify = λ stored p. text_eq stored p;
  token_digest = λ t. t;
  agent_digest = λ t. length t;
  is_ip = λ t. true;
  jwt_encode = encode;
  jwt_decode = λ aud iss now t. Decoded.claims (demo_claims now t);
  has_upper = λ p. true;
  has_lower = λ p. true;
  has_digit = λ p. true;
  has_symbol = λ p. true;
  jwt_audience = codes "dashboard";
  jwt_issuer = codes "kfinance-auth";
  access_ttl = 900;
  refresh_ttl = 604800;
  remember_refresh_ttl = 2592000;
  email_verify_ttl = 1800;
  password_reset_ttl = 1800;
  account_unlock_ttl = 900;
  login_failure_limit = 5;
  account_lock_seconds = 900;
  login_ip_limit = pos 10;
  login_ip_window = pos 300;
  login_email_limit = pos 5;
  login_email_window = pos 300;
  password_min_length = 12;
  require_upper = true;
  require_lower = true;
  require_digit = true;
  require_symbol = true;
}

abbrev pub at : ℕ → Call
at t = record {
  ip = none;
  user_agent = none;
  now = t;
  salt = 1;
  secret = 90;
  new_user = 8;
  new_token = 31;
  new_session = 61;
  new_jti = 51;
  access_jti = 70;
  session_secret = 80;
  new_org = 99;
}

abbrev pub kim : User
kim = record {
  id = 7;
  email = codes "Kim@Example.com";
  name = none;
  password_hash = some (codes "old-password-1!");
  signup_channel = codes "email";
  password_updated_at = none;
  email_verified_at = some 5;
  failed_attempts = 4;
  locked_until = none;
  plan_tier = codes "pro";
  role = codes "user";
  last_login_at = none;
  last_login_ip = none;
  first_login_at = none;
  onboarded_at = none;
}

abbrev pub kim_session : SessionRow
kim_session = record {
  id = 60;
  user_id = 7;
  session_token = 81;
  refresh_jti = 50;
  device_label = codes "email";
  ip = none;
  user_agent_hash = none;
  expires_at = 5000;
  revoked_at = none;
  last_used_at = none;
  remember_me = false;
}

abbrev pub reset_row : TokenRow
reset_row = record {
  id = 30;
  user_id = 7;
  token_hash = 42;
  token_type = TokenType.password_reset;
  identifier = codes "kim@example.com";
  expires_at = 2000;
  used_at = none;
  metadata_ip = none;
}

abbrev pub demo_db : Db
demo_db = record {
  users = kim ∷ [];
  tokens = reset_row ∷ [];
  sessions = kim_session ∷ [];
  audits = [];
  orgs = [];
  members = [];
}

abbrev pub demo_world : World (Unit {0})
demo_world = record { db = demo_db; redis = tt; effects = [] }

-- What the login of `right` returns.
abbrev pub right_result : LoginResult
right_result = record {
  access_token = 61;
  refresh_token = 61;
  expires_in = 900;
  session_id = 61;
  session_token = 80;
  user_id = 7;
  profile = login_profile kim;
  org_id = some 99;
  onboarding_required = true;
}

abbrev pub wrong : LoginPayload
wrong = record { email = codes " KIM@example.com "; password = codes "guess"; remember_me = false }

abbrev pub right : LoginPayload
right = record {
  email = codes " KIM@example.com ";
  password = codes "old-password-1!";
  remember_me = true;
}
