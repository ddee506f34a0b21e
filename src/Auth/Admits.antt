-- ===== src/Auth/Admits.antt =====
-- Who is let in by a login (services/auth/common.py, `LoginUserUseCase`).
use ko_finance.Common.{
  ◌≡◌, ◌∙◌, ap, Bool, true, false, some, [], arith, Text, is_some, find, inl, inr, or_default,
}
use ko_finance.Auth.Model.{User, Db, Call, AuthError, has_email}
use ko_finance.Auth.Settings.{Settings}
use ko_finance.Auth.Exec.{World, ok, err, transaction, Result-cases}
use ko_finance.Auth.Rollback.{Returns, login_limits-Reads}
use ko_finance.Auth.Guards.{State, normalize_email, ensure_org_subscription}
use ko_finance.Auth.Login.{
  LoginPayload, LoginResult, has_password, is_locked, load_user, verify_credentials, open_session,
  login_block, login_limits, login_user,
}

module _ (e : Settings) (c : Call) where
  open_session-Returns : (u : User) (remember : Bool) → Returns (open_session e c u remember)
  unfolding open_session
  open_session-Returns u remember w x h = ground arith

  login_block-Returns :
      (email password : Text) (remember : Bool) (w : World (State e)) (u : User)
      → find (has_email email) w.db.users ≡ some u
      → has_password u ≡ true
      → is_locked c.now u ≡ false
      → e.verify (or_default u.password_hash []) password ≡ true
      → is_some u.email_verified_at ≡ true
      → (x : AuthError) → ¬ ((login_block e c email password remember w).0 ≡ err x)
  unfolding login_block load_user verify_credentials
  login_block-Returns email password remember w u found stored unlocked verified confirmed x h =
      ground (arith, open_session-Returns u remember w x)

  -- The converse: the limiter permitting, the right password for an account that is found by its
  -- normalized address, is not locked and has a verified address always opens a session.
  pub login_admits :
      (p : LoginPayload) (w : World (State e)) (email : Text) (u : User)
      → normalize_email p.email ≡ ok email
      → (login_limits e c email w).0 ≡ ok tt
      → find (has_email email) w.db.users ≡ some u
      → has_password u ≡ true
      → is_locked c.now u ≡ false
      → e.verify (or_default u.password_hash []) p.password ≡ true
      → is_some u.email_verified_at ≡ true
      → (r : LoginResult) × ((login_user e c p w).0 ≡ ok r)
  unfolding login_user transaction ensure_org_subscription
  login_admits p w email u normal allowed found stored unlocked verified confirmed =
      let w2 = (login_limits e c email w).1 in
      let found' : find (has_email email) w2.db.users ≡ some u =
        ap (λ (d : Db). find (has_email email) d.users) (login_limits-Reads e c email w) ∙ found in
      elim (Result-cases (login_block e c email p.password p.remember_me w2).0) [
        | inl (r, done) ↦ (r, ground arith)
        | inr (x, failed) ↦ absurd (
            login_block-Returns email p.password p.remember_me w2 u found' stored unlocked verified
              confirmed x failed)
      ]
