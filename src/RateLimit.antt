-- ===== src/RateLimit.antt =====
-- The rate limit of an API key, a counter in Redis for each minute:
-- src/billing_platform/services/rate_limit.py.
pub mod Laws
use saas_billing_entitlement.Prelude.{
  ℕ, ◌-◌, ◌==◌, ltb, leb, Bool, true, false, Option, none, some, String, if◌then◌else◌,
}
use saas_billing_entitlement.Prelude.Int.{ℤ, pos, pos_part, leb_ℤ}
use saas_billing_entitlement.Prelude.Text.{str_eq, ◌⧺◌}

abbrev pub window_seconds : ℕ
window_seconds = 60

-- The commands of the Redis server that the limiter calls, on the server's state: `INCR` with its answer,
-- `EXPIRE`, and `TTL`, which is negative where there is none.
pub record Redis (S : Type 0) : Type 0 where
  pub incr : String → S → ℕ × S
  pub expire : String → ℕ → S → S
  pub ttl : String → S → ℤ

pub record RateLimitDecision : Type 0 where
  pub allowed : Bool
  pub remaining : ℤ
  pub retry_after_seconds : Option ℕ

-- `rate_limit_window_key`, of the key's id and the text of the minute.
unfoldable pub rate_limit_window_key : String → String → String
rate_limit_window_key api_key_id window = "rl:api_key:" ⧺ (api_key_id ⧺ (":" ⧺ window))

module _ {S : Type 0} (redis : Redis S) where
  -- `_INCR_WITH_EXPIRE_LUA`
  unfoldable pub incr_with_expire : String → S → ℕ × S
  incr_with_expire key s =
      let (count, s') = redis.incr key s in
      (count, if count == 1 then redis.expire key window_seconds s' else s')

  abbrev pub retry_after : ℤ → ℕ
  retry_after (pos n) = if ltb 0 n then n else window_seconds
  retry_after _ = window_seconds

  unfoldable pub decide : String → ℕ → ℕ → S → RateLimitDecision
  decide key limit count s =
      if leb count limit
      then record { allowed = true; remaining = pos (limit - count); retry_after_seconds = none }
      else record {
        allowed = false;
        remaining = pos 0;
        retry_after_seconds = some (retry_after (redis.ttl key s));
      }

  -- `check_rate_limit`
  unfoldable pub check_rate_limit : String → String → ℤ → S → RateLimitDecision × S
  unfolding incr_with_expire decide rate_limit_window_key
  check_rate_limit api_key_id window limit_per_minute s =
      if leb_ℤ limit_per_minute (pos 0)
      then (record { allowed = true; remaining = limit_per_minute; retry_after_seconds = none }, s)
      else (let key = rate_limit_window_key api_key_id window in
          let (count, s') = incr_with_expire key s in
          (decide key (pos_part limit_per_minute) count s', s'))

-- `resolve_api_rate_limit_per_minute`, with the two limits of the settings.
unfoldable pub resolve_api_rate_limit_per_minute : String → ℤ → ℤ → ℤ
resolve_api_rate_limit_per_minute role admin_limit limit =
    if str_eq role "platform_admin" then admin_limit else limit
