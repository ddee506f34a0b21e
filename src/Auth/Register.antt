-- ===== src/Auth/Register.antt =====
-- What registration keeps of the table of users (services/auth/common.py, `RegisterUserUseCase`).
use ko_finance.Common.{
  ℕ, ◌≡◌, refl, ◌∙◌, ap, Bool, false, not, Option, none, some, List, [], ◌∷◌, ◌++◌, arith, Text,
  codes, text_eq, text_eq_iff, find, find-append_none, find-update_where-none, update_where,
  if◌then◌else◌, Option-cases, Bool-cases, inl, inr, ℤ, pos, some_text, ◌==◌, strip, lower,
  strip_idem, nonempty,
}
use ko_finance.Auth.Model.{User, Db, Call, Code, has_email}
use ko_finance.Auth.Settings.{Settings}
use ko_finance.Auth.Exec.{World, ok, raise_if, transaction, Result-cases}
use ko_finance.Auth.Rollback.{
  Keeps, resume-Keeps, >>=-Keeps, transaction-Keeps, enforce_rate_limit-Reads,
}
use ko_finance.Auth.Guards.{
  enforce_rate_limit, fails, lift, hash_password, normalize_signup_channel, ensure_org_subscription,
  State, normalize_email, ensure_default_org, is_active_member,
}
use ko_finance.Auth.Login.{has_password}
use ko_finance.Auth.Accounts.{
  RegisterPayload, new_user, save_user, register_block, execute_register, register_user,
}

-- No two rows are found under one address.
abbrev pub UniqueEmails : List User → Type 0
UniqueEmails [] = Unit
UniqueEmails (u ∷ us) = (find (has_email (lower u.email)) us ≡ none) × UniqueEmails us

-- A new row whose address is not taken keeps the addresses unique.
UniqueEmails-append_one :
    (us : List User) (u : User)
    → UniqueEmails us
    → find (has_email (lower u.email)) us ≡ none
    → UniqueEmails (us ++ u ∷ [])
UniqueEmails-append_one [] u h new = (refl, tt)
UniqueEmails-append_one (v ∷ us) u h new =
    let other : text_eq (lower u.email) (lower v.email) ≡ false = ground (
      arith,
      text_eq_iff (lower u.email) (lower v.email),
      text_eq_iff (lower v.email) (lower u.email),
    ) in
    (
      find-append_none (has_email (lower v.email)) us (u ∷ []) h.0 ∙ rw other,
      UniqueEmails-append_one us u h.1 (ground arith),
    )

-- So does an update that leaves the addresses as they are.
UniqueEmails-update_where :
    (q : User → Bool) (f : User → User)
    → ((u : User) → (f u).email ≡ u.email)
    → (us : List User) → UniqueEmails us
    → UniqueEmails (update_where q f us)
UniqueEmails-update_where q f same [] h = tt
UniqueEmails-update_where q f same (u ∷ us) h =
    let kept : (if q u then f u else u).email ≡ u.email = ground (arith, same u) in
    (
      rw kept (
          find-update_where-none (has_email (lower u.email)) q f
            (λ x. ap (λ m. text_eq (lower m) (lower u.email)) (same x)) us h.0),
      UniqueEmails-update_where q f same us h.1,
    )

abbrev pub HasUniqueEmails : Db → Type 0
HasUniqueEmails d = UniqueEmails d.users

module _ {S : Type 0} (e : Settings) (c : Call) where
  -- The key of the query is the address of the new row in lower case.
  save_user-HasUniqueEmails :
      (email : Text) (name : Option Text) (hashed channel : Text) (existing : Option User)
      (w : World S)
      → find (has_email (lower email)) w.db.users ≡ existing
      → HasUniqueEmails w.db
      → HasUniqueEmails (save_user {S = S} c email name hashed channel existing w).1.db
  unfolding save_user
  save_user-HasUniqueEmails email name hashed channel none w found h =
      UniqueEmails-append_one w.db.users (new_user c email name hashed channel) h found
  save_user-HasUniqueEmails email name hashed channel (some u) w found h =
      elim (Bool-cases (has_password u)) [
        | inl taken ↦ rw taken h
        | inr free ↦ rw free (
            UniqueEmails-update_where (λ v. v.id == u.id)
              (λ v. record v {
                password_hash = some hashed;
                signup_channel = channel;
                password_updated_at = some c.now;
              })
              (λ v. refl) w.db.users h)
      ]

  pub ensure_default_org-Keeps :
      (user : ℕ) → Keeps HasUniqueEmails {S = S} (ensure_default_org c user)
  unfolding ensure_default_org
  ensure_default_org-Keeps user w h =
      elim (Option-cases (find (is_active_member user) w.db.members)) [
        | inl absent ↦ rw absent h
        | inr (m, found) ↦ rw found h
      ]

  register_block-Keeps :
      (email : Text) (name : Option Text) (hashed channel : Text)
      → Keeps HasUniqueEmails {S = S} (register_block e c (lower email) email name hashed channel)
  unfolding register_block
  register_block-Keeps email name hashed channel w h =
      let existing = find (has_email (lower email)) w.db.users in
      let saved = save_user {S = S} c email name hashed channel existing w in
      resume-Keeps HasUniqueEmails _
        (λ user.
          >>=-Keeps HasUniqueEmails (ensure_default_org c user) _ (ensure_default_org-Keeps user)
            (λ org v hv. hv))
        saved.0 saved.1 (save_user-HasUniqueEmails email name hashed channel existing w refl h)

normalize_email-ok :
    (address email : Text) → normalize_email address ≡ ok email → email ≡ lower (strip address)
unfolding normalize_email
normalize_email-ok address email h = ground arith

module _ (e : Settings) (c : Call) where
  enforce_rate_limit-Keeps :
      (scope : Text) (who : Option Text) (limit window : ℤ)
      → Keeps HasUniqueEmails (enforce_rate_limit e c scope who limit window)
  enforce_rate_limit-Keeps scope who limit window w h =
      rw (enforce_rate_limit-Reads e c scope who limit window w) h

  execute_register-Keeps :
      (p : RegisterPayload) (email : Text)
      → email ≡ lower (strip p.email)
      → Keeps HasUniqueEmails (execute_register e c p email)
  unfolding execute_register ensure_org_subscription
  execute_register-Keeps p email key =
      >>=-Keeps HasUniqueEmails (raise_if (not p.accept_terms) (fails Code.invalid_payload 400)) _
        (λ w h. h)
        (λ _.
          >>=-Keeps HasUniqueEmails
            (raise_if (not (nonempty p.password)) (fails Code.invalid_payload 400)) _ (λ w h. h)
            (λ _.
              >>=-Keeps HasUniqueEmails
                (enforce_rate_limit e c (codes "auth.register.ip") c.ip (pos 5) (pos 600)) _
                (enforce_rate_limit-Keeps _ _ _ _)
                (λ _.
                  >>=-Keeps HasUniqueEmails
                    (enforce_rate_limit e c (codes "auth.register.email") (some email) (pos 3)
                      (pos 3600))
                    _ (enforce_rate_limit-Keeps _ _ _ _)
                    (λ _.
                      >>=-Keeps HasUniqueEmails (lift (hash_password e c p.password)) _ (λ w h. h)
                        (λ hashed.
                          >>=-Keeps HasUniqueEmails (transaction _) _
                            (transaction-Keeps HasUniqueEmails _ (
                              rw key (
                                register_block-Keeps e c (strip p.email) (some_text (strip p.name))
                                  hashed (normalize_signup_channel p.signup_channel))))
                            (λ saved w h. h))))))

  -- A registration, whether it succeeds or fails, keeps the addresses of the table of users unique.
  pub register_keeps_emails_unique :
      (p : RegisterPayload) (w : World (State e))
      → UniqueEmails w.db.users
      → UniqueEmails (register_user e c p w).1.db.users
  unfolding register_user
  register_keeps_emails_unique p w h = elim (Result-cases (normalize_email (strip p.email))) [
    | inr (x, missing) ↦ rw missing h
    | inl (email, normal) ↦ rw normal (
        execute_register-Keeps p email
          (normalize_email-ok (strip p.email) email normal ∙ ap lower (strip_idem p.email)) w h)
  ]
