-- ===== src/Auth/Tests.antt =====
-- A small installation, and the theorems about the flows applied to it.
use ko_finance.Auth.Demo.{
  at, demo, demo_claims, demo_db, demo_world, kim, kim_session, reset_row, right, right_result,
  wrong,
}
use ko_finance.Common.{
  ◌≡◌, refl, true, false, none, some, List, [], ◌∷◌, ◌++◌, arith, Text, ◌↔◌, codes, text_eq, find,
  is_some, or_default, ◌==◌, strip, lower,
}
use ko_finance.RateLimit.{check_limit}
use ko_finance.Auth.Model.{User, TokenType, SessionRow, Code, has_email}
use ko_finance.Auth.Exec.{World, ok, err, transaction}
use ko_finance.Auth.Guards.{
  fails, validate_password_strength, normalize_email, enforce_rate_limit, handle_failed_attempt,
  hash_password, ensure_org_subscription, normalize_plan_tier_value,
}
use ko_finance.Auth.Tokens.{token_error, consume_magic_token, issue_magic_token, decode_token}
use ko_finance.Auth.Login.{
  LoginResult, login_user, login_block, login_limits, open_session, load_user, verify_credentials,
  has_password, is_locked, session_row,
}
use ko_finance.Auth.Accounts.{RegisterPayload, register_user, confirm_password_reset}
use ko_finance.Auth.Sessions.{refresh_session, refresh_block}
use ko_finance.Auth.Rollback.{after_attempts, refused_logins_keep_db}
use ko_finance.Auth.Access.{login_checks}
use ko_finance.Auth.Admits.{login_admits}
use ko_finance.Auth.TokenUse.{consume_magic_token_once, issue-consume}
use ko_finance.Auth.SessionUse.{refresh_token_once}
use ko_finance.Auth.Reset.{reset_ends_sessions, reset_admits}
use ko_finance.Auth.Register.{UniqueEmails, register_keeps_emails_unique}
use ko_finance.Auth.Policy.{MeetsPolicy, validate_password_strength_iff}

-- A name for all that a run of the flows computes through.
abbrev flows : Unit {0}
unfolding login_user normalize_email lower strip login_limits enforce_rate_limit check_limit
    transaction login_block text_eq handle_failed_attempt load_user verify_credentials open_session
    consume_magic_token confirm_password_reset hash_password refresh_session refresh_block
    decode_token register_user ensure_org_subscription normalize_plan_tier_value
flows = tt

wrong_is_refused :
    (login_user demo (at 1000) wrong demo_world).0 ≡ err (fails Code.invalid_credentials 401)
unfolding flows
wrong_is_refused = refl

-- The fifth failure in a row, which would lock the account, leaves the count at four.
refused_logins_keep_db_example :
    (after_attempts demo ((at 1000, wrong) ∷ (at 1001, wrong) ∷ []) demo_world).db ≡ demo_db
unfolding flows
refused_logins_keep_db_example =
    refused_logins_keep_db demo ((at 1000, wrong) ∷ (at 1001, wrong) ∷ []) demo_world
      ((fails Code.invalid_credentials 401, refl), ((fails Code.invalid_credentials 401, refl), tt))

login_checks_example :
    (email : Text) × (u : User) × (rows : List SessionRow) × (normalize_email right.email
      ≡ ok email)
    × (find (has_email email) demo_db.users ≡ some u)
    × (has_password u ≡ true)
    × (is_locked 1000 u ≡ false)
    × (demo.verify (or_default u.password_hash []) right.password ≡ true)
    × (is_some u.email_verified_at ≡ true)
    × (7 ≡ u.id)
    × ((login_user demo (at 1000) right demo_world).1.db.sessions
        ≡ rows ++ session_row demo (at 1000) u.id (codes "email") true 2593000 ∷ [])
    × ((v : User)
        → find (λ x. x.id == u.id) (login_user demo (at 1000) right demo_world).1.db.users ≡ some v
        → (v.failed_attempts ≡ 0) × (v.locked_until ≡ none))
unfolding flows
login_checks_example = login_checks demo (at 1000) right demo_world right_result refl

login_admits_example : (r : LoginResult) × ((login_user demo (at 1000) right demo_world).0 ≡ ok r)
unfolding flows
login_admits_example =
    login_admits demo (at 1000) right demo_world (codes "kim@example.com") kim refl refl refl refl
      refl refl refl

consume_magic_token_once_example :
    (consume_magic_token demo
      (at 1001)
      42
      TokenType.password_reset
      (consume_magic_token demo (at 1000) 42 TokenType.password_reset demo_world).1).0
    ≡ err (token_error Code.token_consumed)
unfolding flows
consume_magic_token_once_example =
    consume_magic_token_once demo (at 1000) (at 1001) 42 TokenType.password_reset demo_world
      (record {
        id = 30;
        token = 42;
        token_type = TokenType.password_reset;
        user_id = 7;
        identifier = codes "kim@example.com";
        expires_at = 2000;
      })
      refl

issue-consume_example :
    (consume_magic_token demo
      (at 1500)
      90
      TokenType.email_verify
      (issue_magic_token demo
        (at 1000)
        7
        TokenType.email_verify
        (codes "kim@example.com")
        1800
        none
        demo_world).1).0
    ≡ (issue_magic_token demo
        (at 1000)
        7
        TokenType.email_verify
        (codes "kim@example.com")
        1800
        none
        demo_world).0
issue-consume_example =
    issue-consume demo (at 1000) (at 1500) 7 TokenType.email_verify (codes "kim@example.com") 1800
      none demo_world refl (omega arith)

refresh_token_once_example : ¬ (
    (refresh_session demo
      (at 1100)
      60
      60
      81
      (refresh_session demo (at 1000) 60 60 81 demo_world).1).0
    ≡ ok (record { access_token = 60; refresh_token = 60; expires_in = 900 }))
unfolding flows
refresh_token_once_example =
    refresh_token_once demo (λ now now' token p q h k. ground arith) (at 1000) (at 1100) 60 60 81 81
      demo_world (demo_claims 0 60)
      (record { access_token = 60; refresh_token = 60; expires_in = 900 })
      (record { access_token = 60; refresh_token = 60; expires_in = 900 }) refl (omega arith) refl

reset_ends_sessions_example : ¬ (
    (refresh_session demo
      (at 1100)
      60
      60
      81
      (confirm_password_reset demo (at 1000) 42 (codes "new-password-22") demo_world).1).0
    ≡ ok (record { access_token = 60; refresh_token = 60; expires_in = 900 }))
unfolding flows
reset_ends_sessions_example =
    reset_ends_sessions demo (at 1000) (at 1100) 42 60 60 81 (codes "new-password-22") demo_world
      true reset_row (demo_claims 0 60) (record kim_session { revoked_at = some 1000 })
      (record { access_token = 60; refresh_token = 60; expires_in = 900 }) refl refl refl refl refl

reset_admits_example :
    (u' : User) × (find
        (λ v. v.id == 7)
        (confirm_password_reset demo (at 1000) 42 (codes "new-password-22") demo_world).1.db.users
      ≡ some u')
    × ((v : World (Unit {0}))
        → verify_credentials demo (at 1100) u' (codes "new-password-22") v ≡ (ok tt, v))
unfolding flows
reset_admits_example =
    reset_admits demo (at 1000) (at 1100) 42 (codes "new-password-22") demo_world true reset_row kim
      refl refl refl refl refl

abbrev lee : RegisterPayload
lee = record {
  email = codes " Lee@example.com";
  password = codes "a-long-password-1";
  name = [];
  signup_channel = none;
  accept_terms = true;
}

register_keeps_emails_unique_example :
    UniqueEmails (register_user demo (at 1000) lee demo_world).1.db.users
register_keeps_emails_unique_example =
    register_keeps_emails_unique demo (at 1000) lee demo_world (refl, tt)

validate_password_strength_iff_example :
    (validate_password_strength demo (codes "short") ≡ none) ↔ MeetsPolicy demo (codes "short")
validate_password_strength_iff_example = validate_password_strength_iff demo (codes "short")
