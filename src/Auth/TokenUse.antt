-- ===== src/Auth/TokenUse.antt =====
-- One-time tokens are used once (services/auth_tokens.py).
use ko_finance.Common.{
  ◌↔◌, ℕ, ◌+◌, ◌≤◌, ◌≡◌, ◌≢◌, refl, true, Option, none, some, [], ◌∷◌, arith, Text, ◌==◌, is_some,
  find, if◌then◌else◌, Option-cases, inl, inr, find-append_none, find-update_where,
}
use ko_finance.Auth.Model.{TokenType, same_type, TokenRow, Db, Call, Code}
use ko_finance.Auth.Settings.{Settings}
use ko_finance.Auth.Exec.{World, ok, err}
use ko_finance.Auth.Tokens.{
  MagicToken, token_error, is_token, mark_used, issue_magic_token, consume_magic_token,
}

-- The row that a token stands for.
abbrev pub token_row : Settings → ℕ → TokenType → Db → Option TokenRow
token_row e token kind d = find (is_token (e.token_digest token) kind) d.tokens

same_type_iff : (k l : TokenType) → (same_type k l ≡ true) ↔ (k ≡ l)
same_type_iff TokenType.email_verify l = ground arith
same_type_iff TokenType.password_reset l = ground arith
same_type_iff TokenType.email_change l = ground arith
same_type_iff TokenType.account_unlock l = ground arith

same_type_refl : (k : TokenType) → same_type k k ≡ true
same_type_refl k = (same_type_iff k k).1 refl

-- The row that `issue_magic_token` inserts.
abbrev issued_row : Settings → Call → ℕ → TokenType → Text → ℕ → Option Text → TokenRow
issued_row e c user kind identifier ttl ip = record {
  id = c.new_token;
  user_id = user;
  token_hash = e.token_digest c.secret;
  token_type = kind;
  identifier = identifier;
  expires_at = c.now + ttl;
  used_at = none;
  metadata_ip = ip;
}

module _ {S : Type 0} (e : Settings) where
  -- A token is accepted exactly when its row is there, unused and not expired, and then its row
  -- alone decides whom it is for.
  pub consume_magic_token_accepts :
      (c : Call) (token : ℕ) (kind : TokenType) (w : World S) (m : MagicToken)
      → (consume_magic_token e c token kind w).0 ≡ ok m
      → (r : TokenRow) × (token_row e token kind w.db ≡ some r)
        × (r.used_at ≡ none)
        × (c.now ≤ r.expires_at)
        × (m.user_id ≡ r.user_id)
        × (m.id ≡ r.id)
        × ((consume_magic_token e c token kind w).1 ≡ record w { db = mark_used r.id c.now w.db })
  unfolding consume_magic_token
  consume_magic_token_accepts c token kind w m h =
      elim (Option-cases (token_row e token kind w.db)) [
        | inl absent ↦ absurd (ground arith)
        | inr (r, found) ↦
            (r, found, ground arith, ground arith, ground arith, ground arith, ground arith)
      ]

  pub consume_magic_token_used :
      (c : Call) (token : ℕ) (kind : TokenType) (w : World S) (r : TokenRow)
      → token_row e token kind w.db ≡ some r
      → is_some r.used_at ≡ true
      → (consume_magic_token e c token kind w).0 ≡ err (token_error Code.token_consumed)
  unfolding consume_magic_token
  consume_magic_token_used c token kind w r found used = ground arith

  -- A token that was accepted once is refused as consumed by every later call on the state left.
  pub consume_magic_token_once :
      (c c' : Call) (token : ℕ) (kind : TokenType) (w : World S) (m : MagicToken)
      → (consume_magic_token e c token kind w).0 ≡ ok m
      → (consume_magic_token e c' token kind (consume_magic_token e c token kind w).1).0
        ≡ err (token_error Code.token_consumed)
  consume_magic_token_once c c' token kind w m h =
      let (r, found, unused, fresh, user, id, after) =
        consume_magic_token_accepts c token kind w m h in
      rw after (
        consume_magic_token_used c' token kind (record w { db = mark_used r.id c.now w.db })
          (if r.id == r.id then record r { used_at = some c.now } else r)
          (find-update_where (is_token (e.token_digest token) kind) (λ t. t.id == r.id)
            (λ t. record t { used_at = some c.now }) (λ t. refl) w.db.tokens r found)
          (ground arith))

  -- A token that has just been issued is accepted until it expires, for its own purpose, its own
  -- user and its own identifier, if no older row has its digest.
  pub issue-consume :
      (c c' : Call) (user : ℕ) (kind : TokenType) (identifier : Text) (ttl : ℕ) (ip : Option Text)
      (w : World S)
      → token_row e c.secret kind w.db ≡ none
      → c'.now ≤ c.now + ttl
      → let (issued, w') = issue_magic_token e c user kind identifier ttl ip w in
        (consume_magic_token e c' c.secret kind w').0 ≡ issued
  unfolding issue_magic_token consume_magic_token
  issue-consume c c' user kind identifier ttl ip w fresh in_time = ground (
    arith,
    same_type_refl kind,
    find-append_none (is_token (e.token_digest c.secret) kind) w.db.tokens
        (issued_row e c user kind identifier ttl ip ∷ []) fresh,
  )

  -- A token that has just been issued is not accepted for another purpose, if no older row has its
  -- digest and that purpose.
  pub issue-consume_other :
      (c c' : Call) (user : ℕ) (kind other : TokenType) (identifier : Text) (ttl : ℕ)
      (ip : Option Text) (w : World S)
      → token_row e c.secret other w.db ≡ none
      → kind ≢ other
      → (consume_magic_token e c' c.secret other
          (issue_magic_token e c user kind identifier ttl ip w).1).0
        ≡ err (token_error Code.token_invalid)
  unfolding issue_magic_token consume_magic_token
  issue-consume_other c c' user kind other identifier ttl ip w fresh differ = ground (
    arith,
    same_type_iff kind other,
    find-append_none (is_token (e.token_digest c.secret) other) w.db.tokens
        (issued_row e c user kind identifier ttl ip ∷ []) fresh,
  )
