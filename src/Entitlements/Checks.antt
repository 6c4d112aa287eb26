-- ===== src/Entitlements/Checks.antt =====
-- `_evaluate_checks` of src/billing_platform/services/entitlements.py. A snapshot is the dictionary
-- that `_build_snapshot` makes, with its fields typed: the keys it always sets are present.
use saas_billing_entitlement.Prelude.{
  Bool, false, Option, none, some, String, List, [], ◌∷◌, if◌then◌else◌,
}
use saas_billing_entitlement.Prelude.Int.{ℤ}
use saas_billing_entitlement.Prelude.Text.{str_eq}
use saas_billing_entitlement.Lifecycle.{Status}
use saas_billing_entitlement.Entitlements.Decide.{
  FeatureDecision, decide_feature, decide_access, remaining_of,
}

pub record Check : Type 0 where
  pub feature_key : String
  pub quantity : ℤ

-- One value of the snapshot's `features`.
pub record FeatureData : Type 0 where
  pub feature_type : String
  pub limit : Option ℤ
  pub used : ℤ
  pub seats : Option ℤ
  pub is_enabled : Bool
  pub enforcement_mode : String

pub record Snapshot : Type 0 where
  pub subscription_status : Status
  pub grace_active : Bool
  pub features : List (String × FeatureData)

pub record EvaluateResult : Type 0 where
  pub feature_key : String
  pub feature_type : String
  pub allowed : Bool
  pub limit : Option ℤ
  pub used : Option ℤ
  pub remaining : Option ℤ
  pub reason : Option String

-- `feature_map.get(key)`
unfoldable pub get_feature : String → List (String × FeatureData) → Option FeatureData
get_feature key [] = none
get_feature key ((k, data') ∷ rest) =
    let later = get_feature key rest in if str_eq key k then some data' else later

result_of_decision : String → String → FeatureDecision → EvaluateResult
result_of_decision key feature_type d = record {
  feature_key = key;
  feature_type = feature_type;
  allowed = d.allowed;
  limit = d.limit;
  used = d.used;
  remaining = d.remaining;
  reason = d.reason;
}

-- The body of the loop, once `feature_map.get` has answered.
unfoldable pub evaluate_feature : Status → Bool → Check → Option FeatureData → EvaluateResult
unfolding result_of_decision
evaluate_feature status grace_active check none = record {
  feature_key = check.feature_key;
  feature_type = "unknown";
  allowed = false;
  limit = none;
  used = none;
  remaining = none;
  reason = some "feature_not_in_plan";
}
evaluate_feature status grace_active check (some f) =
    if (decide_access status grace_active f.enforcement_mode).allowed
    then result_of_decision check.feature_key f.feature_type (
        decide_feature f.feature_type f.limit f.used f.enforcement_mode check.quantity f.is_enabled
          f.seats)
    else record {
      feature_key = check.feature_key;
      feature_type = f.feature_type;
      allowed = false;
      limit = f.limit;
      used = some f.used;
      remaining = remaining_of f.limit f.used;
      reason = some "subscription_access_revoked";
    }

unfoldable pub evaluate_checks : Snapshot → List Check → List EvaluateResult
unfolding get_feature evaluate_feature
evaluate_checks snapshot [] = []
evaluate_checks snapshot (check ∷ checks) =
    evaluate_feature snapshot.subscription_status snapshot.grace_active check
      (get_feature check.feature_key snapshot.features)
    ∷ evaluate_checks snapshot checks
