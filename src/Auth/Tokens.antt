-- ===== src/Auth/Tokens.antt =====
-- One-time tokens and JWTs (services/auth_tokens.py), with the audit row that goes with a new token
-- (services/auth/common.py). The instants that one call reads from the clock are taken to be equal.
use ko_finance.Common.{
  ℕ, ◌+◌, Text, Option, none, some, Bool, true, false, ◌&&◌, [], ◌∷◌, ◌++◌, ltb, ◌==◌, is_some,
  find, update_where, if◌then◌else◌, nonempty,
}
use ko_finance.Auth.Model.{TokenType, same_type, TokenRow, AuditNote, Db, Call, Code, AuthError}
use ko_finance.Auth.Settings.{Settings, Scope, access, refresh, Claims, Profile, Decoded}
use ko_finance.Auth.Exec.{
  Action, Result, ok, err, pure, raise_if, gets, or_raise, modify, ◌>>=◌, ◌>>◌,
}

pub record MagicToken : Type 0 where
  pub id : ℕ
  pub token : ℕ
  pub token_type : TokenType
  pub user_id : ℕ
  pub identifier : Text
  pub expires_at : ℕ

-- `AuthTokenError` has no status; the flows add one.
abbrev pub token_error : Code → AuthError
token_error c = record { code = c; status_code = 0 }

-- The row that `consume_magic_token` selects.
abbrev pub is_token : ℕ → TokenType → TokenRow → Bool
is_token digest kind r = r.token_hash == digest && same_type r.token_type kind

-- `UPDATE auth_tokens SET used_at = NOW() WHERE id = :id`
abbrev pub mark_used : ℕ → ℕ → Db → Db
mark_used id now d = record d {
  tokens = update_where (λ r. r.id == id) (λ r. record r { used_at = some now }) d.tokens;
}

-- `_safe_ip_value`
unfoldable pub safe_ip_value : Settings → Option Text → Option Text
safe_ip_value e none = none
safe_ip_value e (some ip) = if nonempty ip && e.is_ip ip then some ip else none

-- `_record_audit_event`
unfoldable pub record_audit_event :
    {S : Type 0} → Settings → Call → Text → Option ℕ → Text → AuditNote → Action S (Unit {0})
record_audit_event e c event user channel note = modify (λ d. record d {
  audits =
      d.audits
      ++ record {
        user_id = user;
        event_type = event;
        channel = channel;
        ip = safe_ip_value e c.ip;
        user_agent = c.user_agent;
        note = note;
      }
        ∷ [];
})

unfoldable pub issue_magic_token :
    {S : Type 0} → Settings → Call → ℕ → TokenType → Text → ℕ → Option Text → Action S MagicToken
issue_magic_token e c user kind identifier expires_in metadata = do
  let expires = c.now + expires_in
  modify (λ d. record d {
    tokens =
        d.tokens
        ++ record {
          id = c.new_token;
          user_id = user;
          token_hash = e.token_digest c.secret;
          token_type = kind;
          identifier = identifier;
          expires_at = expires;
          used_at = none;
          metadata_ip = metadata;
        }
          ∷ [];
  })
  pure (record {
    id = c.new_token;
    token = c.secret;
    token_type = kind;
    user_id = user;
    identifier = identifier;
    expires_at = expires;
  })

unfoldable pub consume_magic_token :
    {S : Type 0} → Settings → Call → ℕ → TokenType → Action S MagicToken
consume_magic_token e c token kind = do
  row ← gets (λ d. find (is_token (e.token_digest token) kind) d.tokens)
  row ← or_raise row (token_error Code.token_invalid)
  raise_if (is_some row.used_at) (token_error Code.token_consumed)
  raise_if (ltb row.expires_at c.now) (token_error Code.token_expired)
  modify (mark_used row.id c.now)
  pure (record {
    id = row.id;
    token = token;
    token_type = kind;
    user_id = row.user_id;
    identifier = row.identifier;
    expires_at = row.expires_at;
  })

-- The audit note of `_issue_token_with_audit`: the caller's `action`, if any, with the token's id.
abbrev pub issued_note : Option Text → ℕ → AuditNote
issued_note none id = AuditNote.token_note id
issued_note (some action) id = AuditNote.action_note action id

-- `_issue_token_with_audit`
unfoldable pub issue_token_with_audit :
    {S : Type 0}
    → Settings
    → Call
    → ℕ
    → TokenType
    → Text
    → ℕ
    → Text
    → Text
    → Option Text
    → Action S MagicToken
unfolding issue_magic_token record_audit_event
issue_token_with_audit e c user kind identifier ttl event channel action = do
  token ← issue_magic_token e c user kind identifier ttl c.ip
  record_audit_event e c event (some user) channel (issued_note action token.id)
  pure token

unfoldable pub create_access_token : Settings → Call → ℕ → Profile → Option ℕ → ℕ × ℕ
create_access_token e c user profile session = (
  e.jwt_encode (record {
    sub = user;
    aud = e.jwt_audience;
    iss = e.jwt_issuer;
    scope = access;
    session_id = session;
    jti = c.access_jti;
    iat = c.now;
    exp = c.now + e.access_ttl;
    profile = some profile;
  }),
  e.access_ttl,
)

-- `ttl_seconds if ttl_seconds and ttl_seconds > 0 else _REFRESH_TOKEN_TTL`
abbrev pub effective_ttl : Settings → Option ℕ → ℕ
effective_ttl e none = e.refresh_ttl
effective_ttl e (some t) = if ltb 0 t then t else e.refresh_ttl

unfoldable pub create_refresh_token : Settings → Call → ℕ → ℕ → ℕ → Option ℕ → ℕ × ℕ
create_refresh_token e c user session jti ttl = (
  e.jwt_encode (record {
    sub = user;
    aud = e.jwt_audience;
    iss = e.jwt_issuer;
    scope = refresh;
    session_id = some session;
    jti = jti;
    iat = c.now;
    exp = c.now + effective_ttl e ttl;
    profile = none;
  }),
  effective_ttl e ttl,
)

abbrev pub same_scope : Scope → Scope → Bool
same_scope access access = true
same_scope refresh refresh = true
same_scope _ _ = false

-- `decode_token`, after `jwt.decode`.
abbrev pub check_scope : Scope → Decoded → Result Claims
check_scope s Decoded.expired = err (token_error Code.token_expired)
check_scope s Decoded.invalid = err (token_error Code.token_invalid)
check_scope s (Decoded.claims p) =
    if same_scope p.scope s then ok p else err (token_error Code.token_invalid)

unfoldable pub decode_token : Settings → Call → ℕ → Scope → Result Claims
decode_token e c token s = check_scope s (e.jwt_decode e.jwt_audience e.jwt_issuer c.now token)
