-- ===== src/Auth/Access.antt =====
-- Who can log in, and the session that a login opens (services/auth/common.py, `LoginUserUseCase`).
use ko_finance.Common.{
  ℕ, ◌+◌, ◌≡◌, refl, ◌∙◌, sym, ap, Bool, true, false, Option, none, some, List, [], ◌∷◌, ◌++◌,
  arith, Text, codes, ◌==◌, is_some, find, update_where, Bool-cases, inl, inr, find-updated,
  or_default,
}
use ko_finance.Auth.Model.{User, SessionRow, Db, Call, has_email}
use ko_finance.Auth.Settings.{Settings}
use ko_finance.Auth.Exec.{World, ok, transaction, transaction_commits, resume, resume_ok}
use ko_finance.Auth.Rollback.{login_limits-Reads}
use ko_finance.Auth.Guards.{
  State, normalize_email, revoke_expired_sessions, ensure_org_subscription,
}
use ko_finance.Auth.Tokens.{effective_ttl, safe_ip_value}
use ko_finance.Auth.Login.{
  LoginPayload, LoginResult, has_password, is_locked, load_user, verify_credentials, open_session,
  login_block, login_limits, after_login, login_user, session_row, ttl_override,
}

module _ (e : Settings) (c : Call) where
  load_user-ok :
      (row : Option User) (w : World (State e)) (u : User)
      → (load_user e c row w).0 ≡ ok u
      → (row ≡ some u) × (has_password u ≡ true) × ((load_user e c row w).1 ≡ w)
  unfolding load_user
  load_user-ok none w u h = absurd (ground arith)
  load_user-ok (some v) w u h = elim (Bool-cases (has_password v)) [
    | inl e1 ↦ (ground arith, ground arith, ground arith)
    | inr e1 ↦ absurd (ground arith)
  ]

  verify_credentials-ok :
      (u : User) (password : Text) (w : World (State e)) (x : Unit {0})
      → (verify_credentials e c u password w).0 ≡ ok x
      → (is_locked c.now u ≡ false)
        × (e.verify (or_default u.password_hash []) password ≡ true)
        × (is_some u.email_verified_at ≡ true)
        × ((verify_credentials e c u password w).1 ≡ w)
  unfolding verify_credentials
  verify_credentials-ok u password w x h = (ground arith, ground arith, ground arith, ground arith)

  abbrev own : ℕ → User → Bool
  own id u = u.id == id

  abbrev marked : User → User
  marked u = record u {
    failed_attempts = 0;
    locked_until = none;
    last_login_at = some c.now;
    last_login_ip = safe_ip_value e c.ip;
  }

  abbrev first_marked : User → User
  first_marked u = record u { first_login_at = some c.now }

  abbrev IsCleared : User → Type 0
  IsCleared v = (v.failed_attempts ≡ 0) × (v.locked_until ≡ none)

  marked-IsCleared :
      (id : ℕ) (rows : List User) (v : User)
      → find (own id) (update_where (own id) marked rows) ≡ some v
      → IsCleared v
  marked-IsCleared id rows v h =
      let (u, found, eq) = find-updated (own id) marked (λ x. refl) rows v h in rw eq (refl, refl)

  first_marked-IsCleared :
      (id : ℕ) (rows : List User) (v : User)
      → find (own id) (update_where (own id) first_marked (update_where (own id) marked rows))
        ≡ some v
      → IsCleared v
  first_marked-IsCleared id rows v h =
      let (u, found, eq) =
        find-updated (own id) first_marked (λ x. refl) (update_where (own id) marked rows) v h in
      rw eq (marked-IsCleared id rows u found)

  -- The users after the steps of a login that has been accepted.
  open_session-users :
      (u : User) (remember : Bool) (w : World (State e)) (v : User)
      → find (own u.id) (open_session e c u remember w).1.db.users ≡ some v
      → IsCleared v
  unfolding open_session
  open_session-users u remember w v h =
      ground (arith, marked-IsCleared u.id w.db.users v, first_marked-IsCleared u.id w.db.users v)

  -- The session row that is left, and the owner of the session.
  open_session-ok :
      (u : User) (remember : Bool) (w : World (State e)) (r : LoginResult)
      → (open_session e c u remember w).0 ≡ ok r
      → (r.user_id ≡ u.id)
        × ((open_session e c u remember w).1.db.sessions
            ≡ (revoke_expired_sessions c u.id w).1.db.sessions
              ++ session_row e c u.id
                  (codes "email")
                  remember
                  (c.now + effective_ttl e (ttl_override e remember))
                ∷ [])
        × ((v : User)
            → find (λ x. x.id == u.id) (open_session e c u remember w).1.db.users ≡ some v
            → (v.failed_attempts ≡ 0) × (v.locked_until ≡ none))
  unfolding open_session
  open_session-ok u remember w r h = (ground arith, ground arith, open_session-users u remember w)

  -- What the block of a login has checked when it returns.
  login_block-ok :
      (email password : Text) (remember : Bool) (w : World (State e)) (r : LoginResult)
      → (login_block e c email password remember w).0 ≡ ok r
      → (u : User) × (find (has_email email) w.db.users ≡ some u)
        × (has_password u ≡ true)
        × (is_locked c.now u ≡ false)
        × (e.verify (or_default u.password_hash []) password ≡ true)
        × (is_some u.email_verified_at ≡ true)
        × ((open_session e c u remember w).0 ≡ ok r)
        × ((login_block e c email password remember w).1 ≡ (open_session e c u remember w).1)
  unfolding login_block
  login_block-ok email password remember w r h =
      let row = find (has_email email) w.db.users in
      let (u, loaded, rest, after) =
        resume_ok
          (λ u v.
            resume (λ _. open_session e c u remember) (verify_credentials e c u password v).0
              (verify_credentials e c u password v).1)
          (load_user e c row w).0 (load_user e c row w).1 r h in
      let (found, stored, same) = load_user-ok row w u loaded in
      let w1 = (load_user e c row w).1 in
      let (x, checked, opened, after') =
        resume_ok (λ _. open_session e c u remember) (verify_credentials e c u password w1).0
          (verify_credentials e c u password w1).1 r rest in
      let (unlocked, verified, confirmed, same') = verify_credentials-ok u password w1 x checked in
      let here = same' ∙ same in
      (
        u,
        found,
        stored,
        unlocked,
        verified,
        confirmed,
        rw here at opened,
        after ∙ after' ∙ ap (λ v. (open_session e c u remember v).1) here,
      )

  after_login-ok :
      (r r' : LoginResult) (w : World (State e))
      → (after_login r w).0 ≡ ok r'
      → (r ≡ r') × ((after_login r w).1.db ≡ w.db)
  unfolding ensure_org_subscription
  after_login-ok r r' w h = (ground arith, ground arith)

  -- A login that succeeds found the account by the normalized address; the account has a password,
  -- which the given one matches, is not locked and has a verified address. The session belongs to
  -- that account, its row is the last of the table, and a row of the account that is found
  -- afterwards has no failed attempts and no lock.
  pub login_checks :
      (p : LoginPayload) (w : World (State e)) (r : LoginResult)
      → (login_user e c p w).0 ≡ ok r
      → (email : Text) × (u : User) × (rows : List SessionRow) × (normalize_email p.email
          ≡ ok email)
        × (find (has_email email) w.db.users ≡ some u)
        × (has_password u ≡ true)
        × (is_locked c.now u ≡ false)
        × (e.verify (or_default u.password_hash []) p.password ≡ true)
        × (is_some u.email_verified_at ≡ true)
        × (r.user_id ≡ u.id)
        × ((login_user e c p w).1.db.sessions
            ≡ rows
              ++ session_row e c u.id
                  (codes "email")
                  p.remember_me
                  (c.now + effective_ttl e (ttl_override e p.remember_me))
                ∷ [])
        × ((v : User) → find (own u.id) (login_user e c p w).1.db.users ≡ some v → IsCleared v)
  unfolding login_user
  login_checks p w r h =
      let (email, normal, h1, after1) =
        resume_ok
          (λ email v.
            resume
              (λ _ v.
                let t = transaction (login_block e c email p.password p.remember_me) v in
                resume after_login t.0 t.1)
              (login_limits e c email v).0 (login_limits e c email v).1)
          (normalize_email p.email) w r h in
      let w2 = (login_limits e c email w).1 in
      let block = login_block e c email p.password p.remember_me in
      let (x, allowed, h2, after2) =
        resume_ok (λ _ v. let t = transaction block v in resume after_login t.0 t.1)
          (login_limits e c email w).0 w2 r h1 in
      let t = transaction block w2 in
      let (r1, done, h3, after3) = resume_ok after_login t.0 t.1 r h2 in
      let (block_ok, committed) = transaction_commits block w2 r1 done in
      let (u, found, stored, unlocked, verified, confirmed, opened, after4) =
        login_block-ok email p.password p.remember_me w2 r1 block_ok in
      let (same_r, same_db) = after_login-ok r1 r t.1 h3 in
      let (owner, sessions, users) = open_session-ok u p.remember_me w2 r1 opened in
      let final : (login_user e c p w).1.db ≡ (open_session e c u p.remember_me w2).1.db =
        ap (λ (v : World (State e)). v.db) (after1 ∙ after2 ∙ after3)
        ∙ same_db
        ∙ ap (λ (v : World (State e)). v.db) (committed ∙ after4) in
      (
        email,
        u,
        (revoke_expired_sessions c u.id w2).1.db.sessions,
        normal,
        ap (λ (d : Db). find (has_email email) d.users) (sym (login_limits-Reads e c email w))
            ∙ found,
        stored,
        unlocked,
        verified,
        confirmed,
        cc (owner, same_r),
        ap (λ (d : Db). d.sessions) final ∙ sessions,
        λ v hv. users v (ap (λ (d : Db). find (own u.id) d.users) (sym final) ∙ hv),
      )
