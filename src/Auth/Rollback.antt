-- ===== src/Auth/Rollback.antt =====
-- What a login leaves in the database when it fails (services/auth/common.py).
use ko_finance.Common.{◌≡◌, refl, ◌∙◌, Option, List, [], ◌∷◌, arith, Text, ap, ℤ, codes}
use ko_finance.Auth.Model.{Db, Call, AuthError}
use ko_finance.Auth.Settings.{Settings}
use ko_finance.Auth.Exec.{
  World, Action, Result, ok, err, transaction, transaction_rolls_back, commit_or_rollback, ◌>>=◌,
  resume,
}
use ko_finance.Auth.Guards.{
  State, lift, normalize_email, enforce_rate_limit, ensure_org_subscription,
}
use ko_finance.Auth.Login.{
  LoginPayload, LoginResult, login_block, login_limits, after_login, login_user,
}

module _ {S : Type 0} {A : Type 0} where
  -- The action writes nothing to the database.
  abbrev pub Reads : Action S A → Type 0
  Reads m = (w : World S) → (m w).1.db ≡ w.db

  -- The action writes nothing to the database if it raises.
  abbrev pub Atomic : Action S A → Type 0
  Atomic m = (w : World S) (x : AuthError) → (m w).0 ≡ err x → (m w).1.db ≡ w.db

  -- The action does not raise.
  abbrev pub Returns : Action S A → Type 0
  Returns m = (w : World S) (x : AuthError) → ¬ ((m w).0 ≡ err x)

module _ {S : Type 0} {A B : Type 0} (f : A → Action S B) where
  resume-Reads : ((a : A) → Reads (f a)) → (r : Result A) (w : World S) → (resume f r w).1.db ≡ w.db
  resume-Reads hf (ok a) w = hf a w
  resume-Reads hf (err x) w = refl

  resume-Atomic :
      ((a : A) → Atomic (f a))
      → (r : Result A) (w : World S) (x : AuthError) → (resume f r w).0 ≡ err x
      → (resume f r w).1.db ≡ w.db
  resume-Atomic hf (ok a) w x h = hf a w x h
  resume-Atomic hf (err y) w x h = refl

  -- If the rest does not raise, the call before it did.
  resume-err :
      ((a : A) → Returns (f a))
      → (r : Result A) (w : World S) (x : AuthError) → (resume f r w).0 ≡ err x
      → (r ≡ err x) × ((resume f r w).1 ≡ w)
  resume-err hf (ok a) w x h = absurd (hf a w x h)
  resume-err hf (err y) w x h = (ground arith, refl)

module _ {S : Type 0} {A B : Type 0} (m : Action S A) (f : A → Action S B) where
  pub >>=-Reads : Reads m → ((a : A) → Reads (f a)) → Reads (m >>= f)
  >>=-Reads hm hf w = resume-Reads f hf (m w).0 (m w).1 ∙ hm w

  pub >>=-Atomic : Reads m → ((a : A) → Atomic (f a)) → Atomic (m >>= f)
  >>=-Atomic hm hf w x h = resume-Atomic f hf (m w).0 (m w).1 x h ∙ hm w

  pub >>=-Atomic_last : Atomic m → ((a : A) → Returns (f a)) → Atomic (m >>= f)
  >>=-Atomic_last hm hf w x h =
      let (failed, same) = resume-err f hf (m w).0 (m w).1 x h in
      ap (λ (v : World S). v.db) same ∙ hm w x failed

-- What holds of the database before a call and after it, however the call ends.
module _ (I : Db → Type 0) where
  abbrev pub Keeps : {S A : Type 0} → Action S A → Type 0
  Keeps {S} m = (w : World S) → I w.db → I (m w).1.db

  pub resume-Keeps :
      {S A B : Type 0} (f : A → Action S B)
      → ((a : A) → Keeps (f a))
      → (r : Result A) (w : World S) → I w.db
      → I (resume f r w).1.db
  resume-Keeps f hf (ok a) w h = hf a w h
  resume-Keeps f hf (err x) w h = h

  pub >>=-Keeps :
      {S A B : Type 0} (m : Action S A) (f : A → Action S B)
      → Keeps m
      → ((a : A) → Keeps (f a))
      → Keeps (m >>= f)
  >>=-Keeps m f hm hf w h = resume-Keeps f hf (m w).0 (m w).1 (hm w h)

  commit_or_rollback-Keeps :
      {S A : Type 0} (d : Db) (r : Result A × World S)
      → I d
      → I r.1.db
      → I (commit_or_rollback d r).1.db
  commit_or_rollback-Keeps d (ok a, w) before after = after
  commit_or_rollback-Keeps d (err x, w) before after = before

  pub transaction-Keeps : {S A : Type 0} (m : Action S A) → Keeps m → Keeps (transaction m)
  unfolding transaction
  transaction-Keeps m hm w h = commit_or_rollback-Keeps w.db (m w) h (hm w h)

module _ (e : Settings) (c : Call) where
  pub enforce_rate_limit-Reads :
      (scope : Text) (who : Option Text) (limit window : ℤ)
      → Reads (enforce_rate_limit e c scope who limit window)
  unfolding enforce_rate_limit
  enforce_rate_limit-Reads scope who limit window w = refl

  pub login_limits-Reads : (email : Text) → Reads (login_limits e c email)
  unfolding login_limits
  login_limits-Reads email =
      >>=-Reads
        (enforce_rate_limit e c (codes "auth.login.ip") c.ip e.login_ip_limit e.login_ip_window) _
        (enforce_rate_limit-Reads _ _ _ _) (λ _. enforce_rate_limit-Reads _ _ _ _)

  after_login-Returns : (r : LoginResult) → Returns {S = State e} (after_login r)
  unfolding ensure_org_subscription
  after_login-Returns r w x h = ground arith

  -- A login that fails leaves the database as it was: the transaction is rolled back, and with it
  -- the count of failed attempts and the lock that `_handle_failed_attempt` has just written.
  pub login_failure_keeps_db :
      (p : LoginPayload) (w : World (State e)) (x : AuthError)
      → (login_user e c p w).0 ≡ err x
      → (login_user e c p w).1.db ≡ w.db
  unfolding login_user
  login_failure_keeps_db p =
      >>=-Atomic (lift (normalize_email p.email)) _ (λ w. refl)
        (λ email. >>=-Atomic (login_limits e c email) _ (login_limits-Reads email) (λ _.
          >>=-Atomic_last (transaction (login_block e c email p.password p.remember_me)) after_login
            (transaction_rolls_back _) after_login-Returns))

module _ (e : Settings) where
  -- The state after a series of logins, and that each of them was refused.
  abbrev pub after_attempts : List (Call × LoginPayload) → World (State e) → World (State e)
  after_attempts [] w = w
  after_attempts ((c, p) ∷ rest) w = after_attempts rest (login_user e c p w).1

  abbrev pub AllRefused : List (Call × LoginPayload) → World (State e) → Type 0
  AllRefused [] w = Unit
  AllRefused ((c, p) ∷ rest) w =
      ((x : AuthError) × ((login_user e c p w).0 ≡ err x)) × AllRefused rest (login_user e c p w).1

  -- However many logins are refused in a row, no row of the database changes: no failure is counted
  -- and no account is locked.
  pub refused_logins_keep_db :
      (attempts : List (Call × LoginPayload)) (w : World (State e))
      → AllRefused attempts w
      → (after_attempts attempts w).db ≡ w.db
  refused_logins_keep_db [] w h = refl
  refused_logins_keep_db ((c, p) ∷ rest) w ((x, refused), h) =
      refused_logins_keep_db rest (login_user e c p w).1 h
      ∙ login_failure_keeps_db e c p w x refused
