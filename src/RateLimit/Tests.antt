-- ===== src/RateLimit/Tests.antt =====
-- The limiter on a server that keeps one counter for each key and answers every command.
use ko_finance.Common.{
  strip, split_on, ℤ, pos, ◌+ℤ◌, Text, codes, text_eq, text_eq_refl, none, some, true, false, ◌≡◌,
  refl, arith, if◌then◌else◌,
}
use ko_finance.RateLimit.{Redis, check_limit, get_client_ip}
use ko_finance.RateLimit.Window.{Answers, allows_first_calls, after_calls}

abbrev counters : Redis
counters = record {
  State = Text → ℤ;
  incrby_ttl = λ k w s. (some (s k +ℤ w, none), λ j. if text_eq k j then s k +ℤ w else s j);
  expire = λ k t s. (true, s);
}

counters-count :
    (k : Text) (w : ℤ) (s : Text → ℤ) → (if text_eq k k then s k +ℤ w else s k) ≡ s k +ℤ w
counters-count k w s = ground (arith, text_eq_refl k)

abbrev counters-Answers : Answers counters
counters-Answers = record {
  count = λ k s. s k;
  ttl = λ k s. none;
  incrby_answer = λ k w s. refl;
  incrby_count = λ k w s. counters-count k w s;
  expire_answer = λ k t s. refl;
  expire_count = λ k t s. refl;
}

-- The fourth login of an address under a limit of three is refused.
allows_first_calls_example :
    (check_limit counters true 0 (codes "auth") (codes "login") none (pos 3) (pos 60) (pos 1) (
      after_calls counters counters-Answers 0
        (codes "auth")
        (codes "login")
        none
        (pos 3)
        (pos 60)
        3
        (λ k. pos 0))).0.allowed
    ≡ false
allows_first_calls_example =
    allows_first_calls counters counters-Answers 0 (codes "auth") (codes "login") none (pos 3)
      (pos 60) 3 (λ k. pos 0) (omega arith) (omega arith) refl

first_forwarded_address :
    get_client_ip (record {
      forwarded_for = some (codes " 10.0.0.7 , 172.16.0.1");
      real_ip = some (codes "10.0.0.9");
      client_host = none;
    })
    ≡ codes "10.0.0.7"
unfolding get_client_ip strip split_on
first_forwarded_address = refl
