-- ===== src/RateLimit/Window.antt =====
-- Within one window the counter admits exactly the first `limit` calls.
use ko_finance.Common.{
  ℕ, zero, suc, ℤ, pos, ◌+ℤ◌, ◌<ℤ◌, leb_ℤ, ltb_ℤ, Text, Option, some, true, false, ◌≡◌, refl, arith,
  int_laws, Bool-cases, inl, inr, ◌∙◌, ◌||◌,
}
use ko_finance.RateLimit.{
  Redis, RateLimitResult, check_limit, after_pipeline, limit_key, lacks_expiry,
}

-- A server that answers, as the documentation of INCRBY, TTL and EXPIRE describes it: INCRBY adds to
-- the key's count and returns the sum, and EXPIRE leaves every count as it is.
pub record Answers (server : Redis) : Type 0 where
  pub count : Text → server.State → ℤ
  pub ttl : Text → server.State → Option ℤ
  pub incrby_answer :
      (k : Text) (w : ℤ) (s : server.State)
      → (server.incrby_ttl k w s).0 ≡ some (count k s +ℤ w, ttl k s)
  pub incrby_count :
      (k : Text) (w : ℤ) (s : server.State) → count k (server.incrby_ttl k w s).1 ≡ count k s +ℤ w
  pub expire_answer : (k : Text) (t : ℤ) (s : server.State) → (server.expire k t s).0 ≡ true
  pub expire_count :
      (k : Text) (t : ℤ) (s : server.State) → count k (server.expire k t s).1 ≡ count k s

count_below : (n : ℕ) (limit : ℤ) → leb_ℤ (pos 0 +ℤ pos n +ℤ pos 1) limit ≡ ltb_ℤ (pos n) limit
unfolding ◌+ℤ◌
count_below n limit = ground arith

module _ (server : Redis) (answers : Answers server) (now : ℕ) (prefix scope : Text)
    (identifier : Option Text) (limit window : ℤ) where
  open answers use {count, ttl, incrby_answer, incrby_count, expire_answer, expire_count}

  abbrev key : Text
  key = limit_key prefix scope identifier

  abbrev call : server.State → RateLimitResult × server.State
  call s = check_limit server true now prefix scope identifier limit window (pos 1) s

  -- The state after `n` calls.
  abbrev pub after_calls : ℕ → server.State → server.State
  after_calls zero s = s
  after_calls (suc n) s = after_calls n (call s).1

  -- What the body of the `try` does with an answer.
  after_answer :
      (n : ℤ) (t : Option ℤ) (o : Option (ℤ × Option ℤ)) (s : server.State)
      → o ≡ some (n, t)
      → ((after_pipeline server key limit window now (o, s)).0.allowed ≡ leb_ℤ n limit)
        × (count key (after_pipeline server key limit window now (o, s)).1 ≡ count key s)
  unfolding after_pipeline
  after_answer n t o s answered = elim (Bool-cases (lacks_expiry t)) [
    | inl e ↦
        rw (answered, after_pipeline)
          (rw (e, expire_answer key window s) (refl, expire_count key window s))
    | inr e ↦ rw (answered, after_pipeline) (rw e (refl, refl))
  ]

  no_early_return :
      pos 0 <ℤ limit
      → pos 0 <ℤ window
      → (leb_ℤ limit (pos 0) || leb_ℤ window (pos 0) || leb_ℤ (pos 1) (pos 0)) ≡ false
  no_early_return hl hw = ground arith

  -- A call adds one to the count, and is allowed if the count is then within the limit.
  check_limit_counts :
      (s : server.State)
      → pos 0 <ℤ limit
      → pos 0 <ℤ window
      → ((call s).0.allowed ≡ leb_ℤ (count key s +ℤ pos 1) limit)
        × (count key (call s).1 ≡ count key s +ℤ pos 1)
  unfolding check_limit
  check_limit_counts s hl hw =
      let (o, s') = server.incrby_ttl key (pos 1) s in
      let (decided, kept) =
        after_answer (count key s +ℤ pos 1) (ttl key s) o s' (incrby_answer key (pos 1) s) in
      rw (no_early_return hl hw) (decided, kept ∙ incrby_count key (pos 1) s)

  after_calls-count :
      (n : ℕ) (s : server.State)
      → pos 0 <ℤ limit
      → pos 0 <ℤ window
      → count key (after_calls n s) ≡ count key s +ℤ pos n
  after_calls-count zero s hl hw = omega int_laws
  after_calls-count (suc n) s hl hw =
      after_calls-count n (call s).1 hl hw ∙ rw (check_limit_counts s hl hw).1 (omega int_laws)

  -- Counting from an empty bucket, the call after `n` others is allowed exactly when `n` is below
  -- the limit, as long as the window lasts, for a positive limit and window and an answering server.
  pub allows_first_calls :
      (n : ℕ) (s : server.State)
      → pos 0 <ℤ limit
      → pos 0 <ℤ window
      → count key s ≡ pos 0
      → (check_limit server true now prefix scope identifier limit window
          (pos 1)
          (after_calls n s)).0.allowed
        ≡ ltb_ℤ (pos n) limit
  allows_first_calls n s hl hw empty =
      (check_limit_counts (after_calls n s) hl hw).0
      ∙ rw (after_calls-count n s hl hw, empty) (count_below n limit)
