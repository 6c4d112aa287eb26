-- ===== src/RateLimit/Laws.antt =====
-- How many requests of a minute pass: src/billing_platform/services/rate_limit.py.
use saas_billing_entitlement.Prelude.{
  ℕ, zero, suc, ◌+◌, ◌-◌, ◌<◌, ◌==◌, ◌≡◌, refl, ap, ◌∙◌, false, Bool-cases, inl, inr, leb, String,
  arith, if◌then◌else◌,
}
use saas_billing_entitlement.Prelude.Int.{pos, leb_ℤ}
use saas_billing_entitlement.RateLimit.{
  Redis, window_seconds, rate_limit_window_key, incr_with_expire, decide, check_rate_limit,
}

-- What Redis documents of a counter that does not expire meanwhile: `INCR` answers with one more than
-- the count, which it stores, and `EXPIRE` leaves the count alone.
pub record IsCounter {S : Type 0} (redis : Redis S) (key : String) (count : S → ℕ) : Type 0 where
  pub answer : (s : S) → (redis.incr key s).0 ≡ suc (count s)
  pub stored : (s : S) → count (redis.incr key s).1 ≡ suc (count s)
  pub expiry : (seconds : ℕ) (s : S) → count (redis.expire key seconds s) ≡ count s

abbrev pub smaller : ℕ → ℕ → ℕ
smaller a b = if leb a b then a else b

one_more :
    (n limit c : ℕ)
    → (if leb (suc c) limit then 1 else 0) + smaller n (limit - suc c) ≡ smaller (suc n) (limit - c)
one_more n limit c = ground arith

module _ {S : Type 0} (redis : Redis S) (api_key_id window : String) (limit : ℕ) where
  -- How many of a number of requests pass.
  unfoldable pub passed : ℕ → S → ℕ
  passed zero s = 0
  passed (suc n) s =
      let (d, s') = check_rate_limit redis api_key_id window (pos limit) s in
      (if d.allowed then 1 else 0) + passed n s'

module _ {S : Type 0} (redis : Redis S) (api_key_id window : String) (limit : ℕ)
    (count : S → ℕ) where
  decide-allowed :
      (key : String) (n : ℕ) (s : S) → (decide redis key limit n s).allowed ≡ leb n limit
  unfolding decide
  decide-allowed key n s = elim (Bool-cases (leb n limit)) [
    | inl fits ↦ rw fits refl
    | inr over ↦ rw over refl
  ]

  counts :
      (key : String)
      → IsCounter redis key count
      → (s : S)
      → ((incr_with_expire redis key s).0 ≡ suc (count s))
        × (count (incr_with_expire redis key s).1 ≡ suc (count s))
  unfolding incr_with_expire
  counts key h s = (
    h.answer s,
    elim (Bool-cases ((redis.incr key s).0 == 1)) [
      | inl first ↦ rw first (h.expiry window_seconds (redis.incr key s).1 ∙ h.stored s)
      | inr later ↦ rw later (h.stored s)
    ],
  )

  check-counts :
      IsCounter redis (rate_limit_window_key api_key_id window) count
      → 0 < limit
      → (s : S)
      → let (d, s') = check_rate_limit redis api_key_id window (pos limit) s in
        (d.allowed ≡ leb (suc (count s)) limit) × (count s' ≡ suc (count s))
  unfolding check_rate_limit
  check-counts h positive s =
      let key = rate_limit_window_key api_key_id window in
      let limited : leb_ℤ (pos limit) (pos 0) ≡ false = ground arith in
      let (answer, stored) = counts key h s in
      rw limited (decide-allowed key _ _ ∙ ap (λ n. leb n limit) answer, stored)

  passes :
      IsCounter redis (rate_limit_window_key api_key_id window) count
      → 0 < limit
      → (n : ℕ) (s : S) → passed redis api_key_id window limit n s ≡ smaller n (limit - count s)
  unfolding passed
  passes h positive zero s = ground arith
  passes h positive (suc n) s =
      let (allowed, stored) = check-counts h positive s in
      let rest = passes h positive n (check_rate_limit redis api_key_id window (pos limit) s).1 in
      rw (allowed, rest, stored) (one_more n limit (count s))

-- Of any number of requests of one key in one minute, as many pass as a positive limit allows, and no
-- more: the smaller one of their number and the limit. This is for a counter that starts at zero and
-- does not expire before the minute's last request.
pub passed-smaller :
    {S : Type 0} (redis : Redis S) (api_key_id window : String) (limit : ℕ) (count : S → ℕ)
    → IsCounter redis (rate_limit_window_key api_key_id window) count
    → 0 < limit
    → (n : ℕ) (s : S) → count s ≡ 0
    → passed redis api_key_id window limit n s ≡ smaller n limit
passed-smaller redis api_key_id window limit count h positive n s none_yet =
    passes redis api_key_id window limit count h positive n s
    ∙ ap (λ c. smaller n c) (omega (arith, none_yet))
