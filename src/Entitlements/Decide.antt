-- ===== src/Entitlements/Decide.antt =====
-- `decide_feature` and `decide_access` of src/billing_platform/services/entitlements.py, and
-- `is_grace_active` of src/billing_platform/services/grace.py. Instants are microseconds.
use saas_billing_entitlement.Prelude.{
  ℕ, ◌+◌, ◌*◌, Bool, true, false, not, ◌&&◌, ◌||◌, Option, none, some, String, if◌then◌else◌, ltb,
  is_some,
}
use saas_billing_entitlement.Prelude.Int.{ℤ, pos, ◌+ℤ◌, ◌-ℤ◌, ltb_ℤ, leb_ℤ, max_ℤ}
use saas_billing_entitlement.Prelude.Text.{str_eq}
use saas_billing_entitlement.Lifecycle.{Status, past_due, same_status}

pub record FeatureDecision : Type 0 where
  pub allowed : Bool
  pub limit : Option ℤ
  pub used : Option ℤ
  pub remaining : Option ℤ
  pub reason : Option String

pub record AccessDecision : Type 0 where
  pub allowed : Bool
  pub mode : String

-- `_remaining`
abbrev pub remaining_of : Option ℤ → ℤ → Option ℤ
remaining_of none used = none
remaining_of (some limit) used = some (max_ℤ (pos 0) (limit -ℤ used))

-- `_effective_limit`
unfoldable pub effective_limit : String → Option ℤ → Option ℤ → Option ℤ
effective_limit feature_type limit seats =
    if str_eq feature_type "seat" && is_some seats then seats else limit

-- `exhausted_reason` and `exceeded_soft_reason`
unfoldable pub exhausted_reason : String → String
exhausted_reason feature_type =
    if str_eq feature_type "rate_limit"
    then "rate_limit_exhausted"
    else if str_eq feature_type "seat"
    then "seat_exhausted"
    else "quota_exhausted"

unfoldable pub exceeded_soft_reason : String → String
exceeded_soft_reason feature_type =
    if str_eq feature_type "rate_limit"
    then "rate_limit_exceeded_soft"
    else if str_eq feature_type "seat"
    then "seat_exceeded_soft"
    else "quota_exceeded_soft"

-- `effective_limit is not None and used >= effective_limit`
abbrev pub reached : Option ℤ → ℤ → Bool
reached none used = false
reached (some limit) used = leb_ℤ limit used

-- `effective_limit is not None and used + quantity > effective_limit`
abbrev pub overshoots : Option ℤ → ℤ → ℤ → Bool
overshoots none used quantity = false
overshoots (some limit) used quantity = ltb_ℤ limit (used +ℤ quantity)

-- `_decide_numeric_feature`, after its first line.
unfoldable pub decide_within : String → Option ℤ → ℤ → String → ℤ → FeatureDecision
decide_within feature_type limit used enforcement quantity =
    if reached limit used
    then if str_eq enforcement "hard"
      then record {
        allowed = false;
        limit = limit;
        used = some used;
        remaining = some (pos 0);
        reason = some (exhausted_reason feature_type);
      }
      else record {
        allowed = true;
        limit = limit;
        used = some used;
        remaining = some (pos 0);
        reason = some (exceeded_soft_reason feature_type);
      }
    else if overshoots limit used quantity && str_eq enforcement "hard"
    then record {
      allowed = false;
      limit = limit;
      used = some used;
      remaining = remaining_of limit used;
      reason = some (exhausted_reason feature_type);
    }
    else record {
      allowed = true;
      limit = limit;
      used = some used;
      remaining = remaining_of limit used;
      reason = none;
    }

unfoldable pub decide_numeric_feature :
    String → Option ℤ → ℤ → String → ℤ → Option ℤ → FeatureDecision
unfolding effective_limit decide_within
decide_numeric_feature feature_type limit used enforcement quantity seats =
    decide_within feature_type (effective_limit feature_type limit seats) used enforcement quantity

-- `feature_type in ("quota", "rate_limit", "seat")`
abbrev pub is_numeric : String → Bool
is_numeric t = str_eq t "quota" || (str_eq t "rate_limit" || str_eq t "seat")

unfoldable pub decide_feature :
    String → Option ℤ → ℤ → String → ℤ → Bool → Option ℤ → FeatureDecision
decide_feature feature_type limit used enforcement quantity is_enabled seats =
    if str_eq feature_type "boolean"
    then if not is_enabled
      then record {
        allowed = false;
        limit = none;
        used = none;
        remaining = none;
        reason = some "feature_disabled";
      }
      else record { allowed = true; limit = none; used = none; remaining = none; reason = none }
    else if not is_enabled
    then record {
      allowed = false;
      limit = limit;
      used = some used;
      remaining = remaining_of limit used;
      reason = some "feature_disabled";
    }
    else if is_numeric feature_type
    then decide_numeric_feature feature_type limit used enforcement quantity seats
    else record {
      allowed = false;
      limit = limit;
      used = some used;
      remaining = remaining_of limit used;
      reason = some "feature_misconfigured";
    }

unfoldable pub decide_access : Status → Bool → String → AccessDecision
decide_access Status.active grace_active enforcement = record { allowed = true; mode = "full" }
decide_access Status.trialing grace_active enforcement = record { allowed = true; mode = "full" }
decide_access Status.past_due grace_active enforcement =
    if grace_active
    then if str_eq enforcement "degraded"
      then record { allowed = true; mode = "degraded" }
      else record { allowed = true; mode = "full" }
    else record { allowed = false; mode = "denied" }
decide_access _ grace_active enforcement = record { allowed = false; mode = "denied" }

-- `timedelta(days=n)`, in microseconds.
abbrev pub days : ℕ → ℕ
days n = n * 86400000000

-- `compute_grace_until`
unfoldable pub compute_grace_until : ℕ → ℕ → ℕ
compute_grace_until past_due_entered_at grace_period_days =
    past_due_entered_at + days grace_period_days

unfoldable pub is_grace_active : Status → ℕ → Option ℕ → ℕ → Bool
unfolding compute_grace_until
is_grace_active status grace_period_days none now = false
is_grace_active status grace_period_days (some entered_at) now =
    same_status status past_due && ltb now (compute_grace_until entered_at grace_period_days)
