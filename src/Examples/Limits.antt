-- ===== src/Examples/Limits.antt =====
-- The rate limit on a concrete server that holds one counter.
use saas_billing_entitlement.Prelude.{ℕ, suc, ◌≡◌, refl, arith}
use saas_billing_entitlement.Prelude.Int.{pos}
use saas_billing_entitlement.RateLimit.{Redis, rate_limit_window_key}
use saas_billing_entitlement.RateLimit.Laws.{IsCounter, passed, passed-smaller}

abbrev one_counter : Redis ℕ
one_counter = record {
  incr = λ key n. (suc n, suc n);
  expire = λ key seconds n. n;
  ttl = λ key n. pos 30;
}

one_counter-IsCounter :
    IsCounter one_counter (rate_limit_window_key "key-1" "202601010000") (λ n. n)
one_counter-IsCounter = record {
  answer = λ n. refl;
  stored = λ n. refl;
  expiry = λ seconds n. refl;
}

passed-smaller_example : passed one_counter "key-1" "202601010000" 3 5 0 ≡ 3
passed-smaller_example =
    passed-smaller one_counter "key-1" "202601010000" 3 (λ n. n) one_counter-IsCounter (omega arith)
      5 0 refl
