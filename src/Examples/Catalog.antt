-- ===== src/Examples/Catalog.antt =====
-- Changes of a catalog with published plans.
use saas_billing_entitlement.Prelude.{◌≡◌, refl, true, none, [], ◌∷◌, arith}
use saas_billing_entitlement.Db.Session.{Session}
use saas_billing_entitlement.Catalog.{NewPlan, PlanFeatureInput, create_plan}
use saas_billing_entitlement.Catalog.Frame.{offer}
use saas_billing_entitlement.Catalog.Published.{
  IsPublished, new_plan, new_rows, publication, edits, edits-offer,
}
use saas_billing_entitlement.Catalog.Versions.{HasVersions, create_plan-HasVersions}
use saas_billing_entitlement.Examples.Data.{session, plan_row}

abbrev input : PlanFeatureInput
input = record {
  feature_id = "feature-1";
  limit_value = none;
  is_enabled = true;
  enforcement_mode = "soft";
}

abbrev next_plan : NewPlan
next_plan = record {
  product_id = "product-1";
  key = "plan-basic";
  billing_interval = "month";
  trial_days = none;
  grace_period_days = 7;
  dunning_policy = [];
  entitlement_policy = [];
}

abbrev cataloged : Session
cataloged = record session {
  tables = record session.tables {
    plans = plan_row "plan-basic" ∷ [];
    products =
        record {
          id = "product-1";
          key = "platform";
          name = "Platform";
          description = none;
          is_active = true;
        }
        ∷ [];
  };
}

basic-IsPublished : IsPublished "plan-basic" (plan_row "plan-basic") cataloged.tables
basic-IsPublished = record { stored = refl; at = 1; is_out = refl }

edits-offer_example :
    offer "plan-basic"
      (edits
        (new_plan next_plan ∷ new_rows "plan-basic" (input ∷ []) ∷ publication "uuid-0" ∷ [])
        cataloged).tables
    ≡ offer "plan-basic" cataloged.tables
edits-offer_example =
    edits-offer "plan-basic" (plan_row "plan-basic")
      (new_plan next_plan ∷ new_rows "plan-basic" (input ∷ []) ∷ publication "uuid-0" ∷ [])
      cataloged basic-IsPublished

cataloged-HasVersions : HasVersions cataloged.tables
cataloged-HasVersions = record {
  one_draft = λ product_id key. ground arith;
  one_version = λ product_id key version. ground arith;
}

create_plan-HasVersions_example : HasVersions (create_plan next_plan cataloged).1.tables
create_plan-HasVersions_example = create_plan-HasVersions next_plan cataloged cataloged-HasVersions
