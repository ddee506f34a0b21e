-- ===== src/RateLimit.antt =====
-- The counters of services/auth_rate_limiter.py and their use by services/guest_rate_limiter.py.
-- The Redis server is not part of the repository: it is the record `Redis` of the commands sent.
pub mod Window
mod Tests
use ko_finance.Common.{
  ℕ, ◌+◌, ℤ, pos, ◌-ℤ◌, leb_ℤ, ltb_ℤ, max_ℤ, pos_part, Text, codes, nonempty, or_text, strip,
  split_on, Option, none, some, or_default, Bool, true, false, ◌||◌, List, [], ◌∷◌, ◌++◌,
  if◌then◌else◌, not,
}

-- A command that raises an exception answers `none` or `false`.
pub record Redis : Type 1 where
  pub State : Type 0
  -- The pipeline `INCRBY key weight; TTL key`: the new count, and the TTL if the server gives one.
  pub incrby_ttl : Text → ℤ → State → Option (ℤ × Option ℤ) × State
  pub expire : Text → ℤ → State → Bool × State

pub record RateLimitResult : Type 0 where
  pub allowed : Bool
  pub remaining : Option ℤ
  pub reset_at : Option ℕ
  pub backend_error : Bool

-- What is answered without a decision of the counter.
abbrev pub unlimited : Bool → RateLimitResult
unlimited failed = record {
  allowed = true;
  remaining = none;
  reset_at = none;
  backend_error = failed;
}

abbrev pub limit_key : Text → Text → Option Text → Text
limit_key prefix scope identifier =
    prefix
    ++ (codes ":" ++ (scope ++ (codes ":" ++ or_text (or_default identifier []) (codes "global"))))

-- `ttl is None or ttl < 0`
abbrev pub lacks_expiry : Option ℤ → Bool
lacks_expiry none = true
lacks_expiry (some t) = ltb_ℤ t (pos 0)

-- The decision on a count and a TTL in seconds, at the instant `now`.
unfoldable pub judge : ℕ → ℤ → ℤ → ℤ → RateLimitResult
judge now limit count ttl = record {
  allowed = leb_ℤ count limit;
  remaining = some (max_ℤ (limit -ℤ count) (pos 0));
  reset_at = some (now + pos_part (max_ℤ ttl (pos 0)));
  backend_error = false;
}

module _ (server : Redis) where
  -- The body of the `try`, after the pipeline has answered.
  unfoldable pub after_pipeline :
      Text → ℤ → ℤ → ℕ → Option (ℤ × Option ℤ) × server.State → RateLimitResult × server.State
  unfolding judge
  after_pipeline key limit window now (none, s) = (unlimited true, s)
  after_pipeline key limit window now (some (count, ttl), s) =
      let (sent, s') = server.expire key window s in
      if lacks_expiry ttl
      then (if sent then (judge now limit count window, s') else (unlimited true, s'))
      else (judge now limit count (or_default ttl window), s)

  -- `check_limit`; `connected` says whether `_get_client` has a client.
  unfoldable pub check_limit :
      Bool
      → ℕ
      → Text
      → Text
      → Option Text
      → ℤ
      → ℤ
      → ℤ
      → server.State
      → RateLimitResult × server.State
  unfolding after_pipeline
  check_limit connected now prefix scope identifier limit window weight s =
      let key = limit_key prefix scope identifier in
      if leb_ℤ limit (pos 0) || leb_ℤ window (pos 0) || leb_ℤ weight (pos 0)
      then (unlimited false, s)
      else (if connected
          then after_pipeline key limit window now (server.incrby_ttl key weight s)
          else (unlimited true, s))

-- What services/guest_rate_limiter.py reads of a request.
pub record GuestRequest : Type 0 where
  pub forwarded_for : Option Text
  pub real_ip : Option Text
  pub client_host : Option Text

abbrev pub first_part : List Text → Text
first_part [] = []
first_part (w ∷ ws) = w

unfoldable pub get_client_ip : GuestRequest → Text
get_client_ip r =
    if nonempty (or_default r.forwarded_for [])
    then strip (first_part (split_on b',' (or_default r.forwarded_for [])))
    else (if nonempty (or_default r.real_ip [])
        then strip (or_default r.real_ip [])
        else or_default r.client_host (codes "unknown"))

-- The limit and the window when the caller gives none: 10 requests an hour.
abbrev pub guest_chat_limit : ℤ
guest_chat_limit = pos 10

abbrev pub guest_chat_window : ℤ
guest_chat_window = pos 3600

-- `check_guest_rate_limit`: the answer is the `reset_at` of the 429 that it raises.
module _ (server : Redis) where
  unfoldable pub check_guest_rate_limit :
      Bool
      → ℕ
      → Text
      → GuestRequest
      → Option ℤ
      → Option ℤ
      → server.State
      → Option (Option ℕ) × server.State
  unfolding check_limit get_client_ip
  check_guest_rate_limit connected now prefix request limit window s =
      let (result, s') =
        check_limit server connected now prefix (codes "guest_chat") (some (get_client_ip request))
          (or_default limit guest_chat_limit) (or_default window guest_chat_window) (pos 1) s in
      (if result.allowed then none else some result.reset_at, s')
