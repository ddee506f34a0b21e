-- ===== src/Auth/SessionUse.antt =====
-- Refresh tokens are rotated, and ended sessions cannot be refreshed (services/auth/common.py).
use ko_finance.Common.{
  ℕ, ◌+◌, ◌≤◌, ◌≡◌, ◌≢◌, refl, ◌∙◌, ap, false, ◌&&◌, Option, none, some, List, [], ◌∷◌, arith, ◌==◌,
  find, update_where, if◌then◌else◌, Option-cases, Bool-cases, inl, inr,
}
use ko_finance.Auth.Model.{User, SessionRow, Db, Call, Code}
use ko_finance.Auth.Settings.{Settings, Claims, refresh, Decoded}
use ko_finance.Auth.Exec.{
  World, ok, err, transaction, transaction_commits, resume, resume_ok, Result-cases,
}
use ko_finance.Auth.Guards.{fails, revoke_expired_sessions}
use ko_finance.Auth.Tokens.{check_scope, decode_token, effective_ttl}
use ko_finance.Auth.Login.{ttl_override}
use ko_finance.Auth.Sessions.{
  SessionRefreshResult, decode_refresh, other_session, rotate, refresh_block, refresh_session,
}

-- The session row that a refresh looks for.
abbrev pub session_row : ℕ → ℕ → Db → Option SessionRow
session_row id jti d = find (λ s. s.id == id && s.refresh_jti == jti) d.sessions

same_session : (o : Option ℕ) (id : ℕ) → other_session o id ≡ false → o ≡ some id
same_session none id h = cc
same_session (some s) id h = ground arith

module _ {S : Type 0} (e : Settings) (c : Call) where
  -- What a successful refresh has checked, and the database that it leaves.
  pub refresh_block_ok :
      (id jti secret : ℕ) (w : World S) (r : SessionRefreshResult)
      → (refresh_block e c id jti secret w).0 ≡ ok r
      → (s : SessionRow) × (u : User) × (session_row id jti w.db ≡ some s)
        × (s.revoked_at ≡ none)
        × (c.now ≤ s.expires_at)
        × (s.session_token ≡ secret)
        × (find (λ v. v.id == s.user_id) w.db.users ≡ some u)
        × ((ttl : ℕ) × (d : Db) × ((refresh_block e c id jti secret w).1.db
              ≡ rotate id c.new_jti c.now (c.now + ttl) d))
  unfolding refresh_block
  refresh_block_ok id jti secret w r h = elim (Option-cases (session_row id jti w.db)) [
    | inl absent ↦ absurd (ground arith)
    | inr (s, found) ↦ elim (Option-cases (find (λ v. v.id == s.user_id) w.db.users)) [
      | inl absent ↦ absurd (ground arith)
      | inr (u, user) ↦ (
        s,
        u,
        found,
        ground arith,
        ground arith,
        ground arith,
        user,
        (
          effective_ttl e (ttl_override e s.remember_me),
          (revoke_expired_sessions {S = S} c u.id w).1.db,
          ground arith,
        ),
      )
    ]
  ]

  pub refresh_session_ok :
      (token id secret : ℕ) (w : World S) (r : SessionRefreshResult)
      → (refresh_session e c token id secret w).0 ≡ ok r
      → (p : Claims) × (decode_refresh e c token ≡ ok p)
        × (p.session_id ≡ some id)
        × ((refresh_block e c id p.jti secret w).0 ≡ ok r)
        × ((refresh_session e c token id secret w).1 ≡ (refresh_block e c id p.jti secret w).1)
  unfolding refresh_session
  refresh_session_ok token id secret w r h =
      let (p, decoded, rest, after) =
        resume_ok
          (λ q v.
            resume (λ u. transaction (refresh_block e c id q.jti secret))
              (if other_session q.session_id id then err (fails Code.token_invalid 409) else ok tt)
              v)
          (decode_refresh e c token) w r h in
      elim (Bool-cases (other_session p.session_id id)) [
        | inl other ↦ absurd (ground arith)
        | inr same ↦
            let (done, committed) =
              transaction_commits (refresh_block e c id p.jti secret) w r (rw same at rest) in
            (p, decoded, same_session p.session_id id same, done, after ∙ rw same committed)
      ]

-- After a rotation no row answers to the old identifier of the refresh token.
rotate_forgets :
    (id old new now expires : ℕ) (rows : List SessionRow)
    → new ≢ old
    → find
        (λ s. s.id == id && s.refresh_jti == old)
        (update_where
          (λ s. s.id == id)
          (λ s. record s { refresh_jti = new; last_used_at = some now; expires_at = expires })
          rows)
      ≡ none
rotate_forgets id old new now expires [] h = refl
rotate_forgets id old new now expires (s ∷ rows) h =
    ground (arith, rotate_forgets id old new now expires rows h)

-- `jwt.decode` gives one token the same claims whenever it gives it any, under the same settings.
abbrev pub DecodesAlike : Settings → Type 0
DecodesAlike e =
    (now now' token : ℕ) (p q : Claims)
    → e.jwt_decode e.jwt_audience e.jwt_issuer now token ≡ Decoded.claims p
    → e.jwt_decode e.jwt_audience e.jwt_issuer now' token ≡ Decoded.claims q
    → p ≡ q

check_scope-ok : (d : Decoded) (p : Claims) → check_scope refresh d ≡ ok p → d ≡ Decoded.claims p
check_scope-ok Decoded.expired p h = absurd (ground arith)
check_scope-ok Decoded.invalid p h = absurd (ground arith)
check_scope-ok (Decoded.claims q) p h = ground arith

pub decode_refresh-claims :
    (e : Settings) (c : Call) (token : ℕ) (p : Claims)
    → decode_refresh e c token ≡ ok p
    → e.jwt_decode e.jwt_audience e.jwt_issuer c.now token ≡ Decoded.claims p
unfolding decode_token
decode_refresh-claims e c token p h = elim (Result-cases (decode_token e c token refresh)) [
  | inl (q, decoded) ↦ check_scope-ok _ p (ground arith)
  | inr (x, failed) ↦ absurd (ground arith)
]

module _ {S : Type 0} (e : Settings) (alike : DecodesAlike e) (c c' : Call) where
  -- A refresh token serves once: after a refresh that drew a new identifier, no later call with the
  -- same token succeeds on the state left, if the JWT library decodes a token alike at all times.
  pub refresh_token_once :
      (token id secret secret' : ℕ) (w : World S) (p : Claims) (r r' : SessionRefreshResult)
      → decode_refresh e c token ≡ ok p
      → c.new_jti ≢ p.jti
      → (refresh_session e c token id secret w).0 ≡ ok r
      → ¬ (
          (refresh_session e c' token id secret' (refresh_session e c token id secret w).1).0
          ≡ ok r')
  refresh_token_once token id secret secret' w p r r' decoded drawn first again =
      let (q, decoded_q, of_session, done, after) =
        refresh_session_ok e c token id secret w r first in
      let rotation = (refresh_block_ok e c id q.jti secret w r done).7 in
      let w' = (refresh_session e c token id secret w).1 in
      let (q', decoded_q', of_session', done', after') =
        refresh_session_ok e c' token id secret' w' r' again in
      let found = (refresh_block_ok e c' id q'.jti secret' w' r' done').2 in
      let same : q' ≡ p =
        alike c'.now c.now token q' p (decode_refresh-claims e c' token q' decoded_q')
          (decode_refresh-claims e c token p decoded) in
      let gone : session_row id p.jti w'.db ≡ none =
        rw (ap (λ (v : World S). v.db) after ∙ rotation.2) (
          rotate_forgets id p.jti c.new_jti c.now (c.now + rotation.0) rotation.1.sessions drawn) in
      cc (found, same, gone)
