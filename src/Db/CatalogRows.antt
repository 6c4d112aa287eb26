-- ===== src/Db/CatalogRows.antt =====
-- The rows of the catalog: products, features, and features of plans, from
-- src/billing_platform/domain/models.
use saas_billing_entitlement.Prelude.{ℕ, Bool, Option, String}
use saas_billing_entitlement.Prelude.Int.{ℤ}
use saas_billing_entitlement.Db.Json.{Dict}

pub record Product : Type 0 where
  pub id : String
  pub key : String
  pub name : String
  pub description : Option String
  pub is_active : Bool

pub record Plan : Type 0 where
  pub id : String
  pub product_id : String
  pub key : String
  pub billing_interval : String
  pub trial_days : Option ℤ
  pub grace_period_days : ℕ
  pub dunning_policy : Dict
  pub entitlement_policy : Dict
  pub version : ℕ
  pub published_at : Option ℕ

pub record Price : Type 0 where
  pub id : String
  pub plan_id : String
  pub currency : String
  pub unit_amount_cents : ℤ
  pub pricing_model : String
  pub metered_feature_key : Option String
  pub external_price_id : Option String
  pub is_active : Bool

pub record Feature : Type 0 where
  pub id : String
  pub key : String
  pub feature_type : String
  pub default_limit : Option ℤ
  pub reset_interval : Option String

pub record PlanFeature : Type 0 where
  pub id : String
  pub plan_id : String
  pub feature_id : String
  pub limit_value : Option ℤ
  pub is_enabled : Bool
  pub enforcement_mode : String
