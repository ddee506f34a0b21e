-- ===== src/Auth/Reset.antt =====
-- What a password reset does to the account and its sessions (services/auth/common.py).
use ko_finance.Common.{
  ℕ, ◌≡◌, refl, ◌∙◌, Bool, true, not, ◌&&◌, none, some, List, [], ◌∷◌, arith, Text, ◌==◌, is_some,
  find, update_where, Option-cases, inl, inr, find-update_where, find_holds,
}
use ko_finance.Auth.Model.{User, SessionRow, TokenType, TokenRow, Call}
use ko_finance.Auth.Settings.{Settings, Claims}
use ko_finance.Auth.Exec.{World, ok, transaction, Result-cases}
use ko_finance.Auth.SessionUse.{session_row, refresh_block_ok, refresh_session_ok}
use ko_finance.Auth.Login.{verify_credentials}
use ko_finance.Auth.Guards.{State, hash_password, validate_password_strength}
use ko_finance.Auth.Tokens.{consume_magic_token, record_audit_event}
use ko_finance.Auth.TokenUse.{token_row}
use ko_finance.Auth.Accounts.{confirm_password_reset, revoke_sessions}
use ko_finance.Auth.Sessions.{SessionRefreshResult, decode_refresh, refresh_session}

-- The account after a reset.
abbrev pub reset_user : Text → ℕ → User → User
reset_user hashed now u = record u {
  password_hash = some hashed;
  password_updated_at = some now;
  failed_attempts = 0;
  locked_until = none;
}

hash_password-ok :
    (e : Settings) (c : Call) (p h : Text)
    → hash_password e c p ≡ ok h
    → (h ≡ e.hash c.salt p) × (validate_password_strength e p ≡ none)
unfolding hash_password
hash_password-ok e c p h eq = elim (Option-cases (validate_password_strength e p)) [
  | inl strong ↦ (ground arith, strong)
  | inr (x, weak) ↦ absurd (ground arith)
]

module _ {S : Type 0} (e : Settings) (c : Call) where
  -- A reset that succeeds has found its token, and has rewritten the account and its sessions.
  confirm_password_reset_ok :
      (token : ℕ) (password : Text) (w : World S) (b : Bool)
      → (confirm_password_reset e c token password w).0 ≡ ok b
      → (r : TokenRow) × (token_row e token TokenType.password_reset w.db ≡ some r)
        × (validate_password_strength e password ≡ none)
        × ((confirm_password_reset e c token password w).1.db.users
            ≡ update_where
                (λ u. u.id == r.user_id)
                (reset_user (e.hash c.salt password) c.now)
                w.db.users)
        × ((confirm_password_reset e c token password w).1.db.sessions
            ≡ (revoke_sessions r.user_id c.now w.db).sessions)
  unfolding confirm_password_reset transaction consume_magic_token record_audit_event
  confirm_password_reset_ok token password w b h =
      elim (Result-cases (hash_password e c password)) [
        | inr (x, weak) ↦ absurd (ground arith)
        | inl (hashed, strong) ↦
            let (hash, valid) = hash_password-ok e c password hashed strong in
            elim (Option-cases (token_row e token TokenType.password_reset w.db)) [
              | inl absent ↦ absurd (ground arith)
              | inr (r, found) ↦ (r, found, valid, ground arith, ground arith)
            ]
      ]

-- Every session of the user that is found after the revocation is revoked.
find-revoked :
    (user now id jti : ℕ) (rows : List SessionRow) (s : SessionRow)
    → find
        (λ s. s.id == id && s.refresh_jti == jti)
        (update_where
          (λ s. s.user_id == user && not (is_some s.revoked_at))
          (λ s. record s { revoked_at = some now })
          rows)
      ≡ some s
    → s.user_id ≡ user
    → is_some s.revoked_at ≡ true
find-revoked user now id jti [] s h own = cc
find-revoked user now id jti (t ∷ rows) s h own =
    ground (arith, find-revoked user now id jti rows s)

module _ {S : Type 0} (e : Settings) (c c' : Call) where
  -- After a password reset no refresh token of the user's sessions works: a refresh on the state
  -- left that names a session of the token's user does not succeed.
  pub reset_ends_sessions :
      (token refresh_token id secret : ℕ) (password : Text) (w : World S) (b : Bool)
      (row : TokenRow) (p : Claims) (s : SessionRow) (r : SessionRefreshResult)
      → (confirm_password_reset e c token password w).0 ≡ ok b
      → token_row e token TokenType.password_reset w.db ≡ some row
      → decode_refresh e c' refresh_token ≡ ok p
      → session_row id p.jti (confirm_password_reset e c token password w).1.db ≡ some s
      → s.user_id ≡ row.user_id
      → ¬ (
          (refresh_session e c' refresh_token id secret
            (confirm_password_reset e c token password w).1).0
          ≡ ok r)
  reset_ends_sessions token refresh_token id secret password w b row p s r done found decoded opened
        own again =
      let (row', found', strong, users, sessions) =
        confirm_password_reset_ok e c token password w b done in
      let w' = (confirm_password_reset e c token password w).1 in
      let (p', decoded', of_session, block, after) =
        refresh_session_ok e c' refresh_token id secret w' r again in
      let alive = refresh_block_ok e c' id p'.jti secret w' r block in
      let same_row : row' ≡ row = ground (arith, found, found') in
      let same : p' ≡ p = ground (arith, decoded, decoded') in
      let revoked : is_some s.revoked_at ≡ true =
        find-revoked row.user_id c.now id p.jti w.db.sessions s (rw (← same_row, ← sessions) opened)
          own in
      let same_s : alive.0 ≡ s = ground (arith, alive.2, same, opened) in
      ground (arith, alive.3, same_s, revoked)

  -- A password reset sets the password that was given and lifts the lock: the account that had the
  -- token's user id passes the credential check with it at once, if its address is verified and the
  -- hash verifies and is not empty.
  pub reset_admits :
      (token : ℕ) (password : Text) (w : World S) (b : Bool) (row : TokenRow) (u : User)
      → (confirm_password_reset e c token password w).0 ≡ ok b
      → token_row e token TokenType.password_reset w.db ≡ some row
      → find (λ v. v.id == row.user_id) w.db.users ≡ some u
      → is_some u.email_verified_at ≡ true
      → e.verify (e.hash c.salt password) password ≡ true
      → (u' : User) × (find
            (λ v. v.id == row.user_id)
            (confirm_password_reset e c token password w).1.db.users
          ≡ some u')
        × ((v : World (State e)) → verify_credentials e c' u' password v ≡ (ok tt, v))
  unfolding verify_credentials
  reset_admits token password w b row u done found user verified law =
      let (row', found', strong, users, sessions) =
        confirm_password_reset_ok e c token password w b done in
      let same_row : row' ≡ row = ground (arith, found, found') in
      let own : (v : User) → Bool = λ v. v.id == row.user_id in
      (
        reset_user (e.hash c.salt password) c.now u,
        rw (users, same_row)
            (find-update_where own own (reset_user (e.hash c.salt password) c.now) (λ v. refl)
                w.db.users u user
              ∙ rw (find_holds own w.db.users u user)),
        λ v. rw (law, verified) refl,
      )
