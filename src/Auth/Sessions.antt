-- ===== src/Auth/Sessions.antt =====
-- Session refresh and logout (services/auth/common.py).
use ko_finance.Common.{
  ℕ, ◌+◌, codes, Option, none, some, Bool, true, false, ◌&&◌, ◌||◌, not, ltb, ◌==◌, is_some, find,
  update_where,
}
use ko_finance.Auth.Model.{AuditNote, Db, Call, Code, AuthError}
use ko_finance.Auth.Settings.{Settings, refresh, Claims}
use ko_finance.Auth.Exec.{
  Action, Result, ok, err, pure, raise_if, gets, or_raise, modify, transaction, ◌>>=◌, ◌>>◌,
}
use ko_finance.Auth.Tokens.{
  record_audit_event, decode_token, create_access_token, create_refresh_token,
}
use ko_finance.Auth.Guards.{fails, lift, revoke_expired_sessions}
use ko_finance.Auth.Login.{ttl_override}
use ko_finance.Auth.Accounts.{revoke_sessions}

pub record SessionRefreshResult : Type 0 where
  pub access_token : ℕ
  pub refresh_token : ℕ
  pub expires_in : ℕ

-- The flow's status for a refresh token that was refused.
abbrev pub refresh_refused : Code → AuthError
refresh_refused Code.token_expired = fails Code.token_expired 401
refresh_refused c = fails c 400

abbrev pub decode_refresh : Settings → Call → ℕ → Result Claims
decode_refresh e c token = elim (decode_token e c token refresh) [
  | ok p ↦ ok p
  | err x ↦ err (refresh_refused x.code)
]

-- `payload.get("session_id") != session_id`
abbrev pub other_session : Option ℕ → ℕ → Bool
other_session none id = true
other_session (some s) id = not (s == id)

-- The `UPDATE` that ends a refresh.
abbrev pub rotate : ℕ → ℕ → ℕ → ℕ → Db → Db
rotate id jti now expires d = record d {
  sessions =
      update_where (λ s. s.id == id)
        (λ s. record s { refresh_jti = jti; last_used_at = some now; expires_at = expires })
        d.sessions;
}

-- The block of `refresh_session` under `with session.begin()`.
unfoldable pub refresh_block :
    {S : Type 0} → Settings → Call → ℕ → ℕ → ℕ → Action S SessionRefreshResult
unfolding revoke_expired_sessions create_access_token create_refresh_token
refresh_block e c session_id jti session_token = do
  row ← gets (λ d. find (λ s. s.id == session_id && s.refresh_jti == jti) d.sessions)
  row ← or_raise row (fails Code.session_invalid 409)
  raise_if (is_some row.revoked_at || ltb row.expires_at c.now) (fails Code.session_expired 409)
  raise_if (not (row.session_token == session_token)) (fails Code.token_invalid 409)
  user ← gets (λ d. find (λ u. u.id == row.user_id) d.users)
  u ← or_raise user (fails Code.user_not_found 404)
  revoke_expired_sessions c u.id
  let (access_token, access_ttl) =
      create_access_token e c u.id
        (record {
          email = u.email;
          plan = u.plan_tier;
          role = u.role;
          email_verified = is_some u.email_verified_at;
        })
        (some session_id)
  let (refresh_token, refresh_ttl) =
      create_refresh_token e c u.id session_id c.new_jti (ttl_override e row.remember_me)
  modify (rotate session_id c.new_jti c.now (c.now + refresh_ttl))
  pure (record {
    access_token = access_token;
    refresh_token = refresh_token;
    expires_in = access_ttl;
  })

-- `refresh_session`
unfoldable pub refresh_session :
    {S : Type 0} → Settings → Call → ℕ → ℕ → ℕ → Action S SessionRefreshResult
refresh_session e c refresh_token session_id session_token = do
  p ← lift (decode_refresh e c refresh_token)
  raise_if (other_session p.session_id session_id) (fails Code.token_invalid 409)
  transaction (refresh_block e c session_id p.jti session_token)

-- The user whose sessions a logout from all devices ends.
abbrev pub logout_user : Settings → Call → Option ℕ → ℕ → Db → Option ℕ
logout_user e c token session_id d =
    let from_session : Option ℕ = elim (find (λ s. s.id == session_id) d.sessions) [
      | none ↦ none
      | some s ↦ some s.user_id
    ] in
    elim token [
      | none ↦ from_session
      | some t ↦ elim (decode_token e c t refresh) [ ok p ↦ some p.sub | err x ↦ from_session ]
    ]

-- `logout_session`
unfoldable pub logout_session :
    {S : Type 0} → Settings → Call → ℕ → Bool → Option ℕ → Action S (Unit {0})
unfolding transaction record_audit_event
logout_session e c session_id true token = transaction (do
  user ← gets (logout_user e c token session_id)
  elim user [
    | none ↦ pure tt
    | some u ↦
        modify (revoke_sessions u c.now)
        >> record_audit_event e c (codes "logout") (some u) (codes "email")
            AuditNote.all_devices_note
  ])
logout_session e c session_id false token = transaction (do
  modify (λ d. record d {
    sessions =
        update_where (λ s. s.id == session_id && not (is_some s.revoked_at))
          (λ s. record s { revoked_at = some c.now }) d.sessions;
  })
  record_audit_event e c (codes "logout") none (codes "email") (AuditNote.session_note session_id))
