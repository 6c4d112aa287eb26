-- ===== src/Catalog.antt =====
-- The catalog of products, plans, prices and features: src/billing_platform/services/catalog.py.
pub mod Frame
pub mod Published
pub mod Versions
use saas_billing_entitlement.Prelude.{
  ℕ, ◌+◌, ◌==◌, ltb, Bool, true, false, ◌&&◌, ◌||◌, not, Option, none, some, is_some, String, List,
  [], ◌∷◌, ◌++◌, if◌then◌else◌, any, where_rows, find_row, update_rows,
}
use saas_billing_entitlement.Prelude.Int.{ℤ}
use saas_billing_entitlement.Prelude.Text.{str_eq}
use saas_billing_entitlement.Db.Json.{Dict}
use saas_billing_entitlement.Db.Rows.{Product, Plan, Price, Feature, PlanFeature, Tables}
use saas_billing_entitlement.Db.Session.{
  Session, Error, product_not_found, plan_not_found, plan_not_draft, plan_draft_exists,
  feature_not_found, invalid_feature_type, integrity_error, Exec, pure, raise, select, or_raise,
  modify, new_uuid, now_utc, ◌>>=◌, ◌>>◌,
}
use saas_billing_entitlement.Subscriptions.{plan_by_id}

abbrev pub product_has_key : String → Product → Bool
product_has_key key p = str_eq p.key key

abbrev pub product_by_id : String → Tables → Option Product
product_by_id id t = find_row (λ (p : Product). str_eq p.id id) t.products

-- A unique key that is taken makes the flush fail.
abbrev pub free_or_raise : Bool → Exec (Unit {0})
free_or_raise true = raise integrity_error
free_or_raise false = pure tt

abbrev product_row : String → String → String → Option String → Bool → Product
product_row id key name description is_active = record {
  id = id;
  key = key;
  name = name;
  description = description;
  is_active = is_active;
}

-- `create_product`
unfoldable pub create_product : String → String → Option String → Bool → Exec Product
create_product key name description is_active = do
  id ← new_uuid
  taken ← select (λ t. any (product_has_key key) t.products)
  free_or_raise taken
  modify (λ t. record t {
    products = t.products ++ product_row id key name description is_active ∷ [];
  })
  pure (product_row id key name description is_active)

-- The keyword arguments of `create_plan`; `or {}` leaves a dictionary as it is.
pub record NewPlan : Type 0 where
  pub product_id : String
  pub key : String
  pub billing_interval : String
  pub trial_days : Option ℤ
  pub grace_period_days : ℕ
  pub dunning_policy : Dict
  pub entitlement_policy : Dict

abbrev pub is_version_of : String → String → Plan → Bool
is_version_of product_id key p = str_eq p.product_id product_id && str_eq p.key key

abbrev pub is_draft_plan : Plan → Bool
is_draft_plan p = not (is_some p.published_at)

abbrev pub is_draft_of : String → String → Plan → Bool
is_draft_of product_id key p = is_version_of product_id key p && is_draft_plan p

-- `coalesce(max(version), 0)`
unfoldable pub max_version : String → String → List Plan → ℕ
max_version product_id key [] = 0
max_version product_id key (p ∷ rest) =
    let later = max_version product_id key rest in
    if is_version_of product_id key p && ltb later p.version then p.version else later

abbrev pub plan_of : NewPlan → String → ℕ → Plan
plan_of n id version = record {
  id = id;
  product_id = n.product_id;
  key = n.key;
  billing_interval = n.billing_interval;
  trial_days = n.trial_days;
  grace_period_days = n.grace_period_days;
  dunning_policy = n.dunning_policy;
  entitlement_policy = n.entitlement_policy;
  version = version;
  published_at = none;
}

-- The answer to the lookup of a draft.
abbrev pub no_draft_or_raise : Bool → Exec (Unit {0})
no_draft_or_raise true = raise plan_draft_exists
no_draft_or_raise false = pure tt

-- `create_plan`
unfoldable pub create_plan : NewPlan → Exec Plan
unfolding max_version
create_plan n = do
  product ← select (product_by_id n.product_id)
  or_raise product product_not_found
  drafted ← select (λ t. any (is_draft_of n.product_id n.key) t.plans)
  no_draft_or_raise drafted
  version ← select (λ t. max_version n.product_id n.key t.plans)
  id ← new_uuid
  modify (λ t. record t { plans = t.plans ++ plan_of n id (version + 1) ∷ [] })
  pure (plan_of n id (version + 1))

-- `_get_plan_or_raise`
unfoldable pub get_plan_or_raise : String → Exec Plan
get_plan_or_raise id = do found ← select (plan_by_id id); or_raise found plan_not_found

-- `_assert_plan_is_draft`
abbrev pub assert_plan_is_draft : Option ℕ → Exec (Unit {0})
assert_plan_is_draft none = pure tt
assert_plan_is_draft (some at) = raise plan_not_draft

-- The keyword arguments of `create_price`.
pub record NewPrice : Type 0 where
  pub plan_id : String
  pub unit_amount_cents : ℤ
  pub currency : String
  pub pricing_model : String
  pub metered_feature_key : Option String
  pub external_price_id : Option String
  pub is_active : Bool

abbrev pub price_of : NewPrice → String → Price
price_of n id = record {
  id = id;
  plan_id = n.plan_id;
  currency = n.currency;
  unit_amount_cents = n.unit_amount_cents;
  pricing_model = n.pricing_model;
  metered_feature_key = n.metered_feature_key;
  external_price_id = n.external_price_id;
  is_active = n.is_active;
}

-- `create_price`
unfoldable pub create_price : NewPrice → Exec Price
unfolding get_plan_or_raise
create_price n = do
  plan ← get_plan_or_raise n.plan_id
  assert_plan_is_draft plan.published_at
  id ← new_uuid
  modify (λ t. record t { prices = t.prices ++ price_of n id ∷ [] })
  pure (price_of n id)

-- `ALLOWED_FEATURE_TYPES`
abbrev pub is_allowed_type : String → Bool
is_allowed_type s =
    str_eq s "boolean" || (str_eq s "quota" || (str_eq s "rate_limit" || str_eq s "seat"))

abbrev feature_of : String → String → String → Option ℤ → Option String → Feature
feature_of id key feature_type default_limit reset_interval = record {
  id = id;
  key = key;
  feature_type = feature_type;
  default_limit = default_limit;
  reset_interval = reset_interval;
}

abbrev allowed_or_raise : Bool → Exec (Unit {0})
allowed_or_raise true = pure tt
allowed_or_raise false = raise invalid_feature_type

-- `create_feature`
unfoldable pub create_feature : String → String → Option ℤ → Option String → Exec Feature
create_feature key feature_type default_limit reset_interval = do
  allowed_or_raise (is_allowed_type feature_type)
  id ← new_uuid
  taken ← select (λ t. any (λ (f : Feature). str_eq f.key key) t.features)
  free_or_raise taken
  modify (λ t. record t {
    features = t.features ++ feature_of id key feature_type default_limit reset_interval ∷ [];
  })
  pure (feature_of id key feature_type default_limit reset_interval)

pub record PlanFeatureInput : Type 0 where
  pub feature_id : String
  pub limit_value : Option ℤ
  pub is_enabled : Bool
  pub enforcement_mode : String

-- A plan has one row for a feature.
abbrev pub is_feature_of : String → String → PlanFeature → Bool
is_feature_of plan_id feature_id r = str_eq r.plan_id plan_id && str_eq r.feature_id feature_id

abbrev pub with_input : PlanFeatureInput → PlanFeature → PlanFeature
with_input item r = record r {
  limit_value = item.limit_value;
  is_enabled = item.is_enabled;
  enforcement_mode = item.enforcement_mode;
}

abbrev pub plan_feature_of : String → PlanFeatureInput → String → PlanFeature
plan_feature_of plan_id item id = record {
  id = id;
  plan_id = plan_id;
  feature_id = item.feature_id;
  limit_value = item.limit_value;
  is_enabled = item.is_enabled;
  enforcement_mode = item.enforcement_mode;
}

-- One item: a row that was loaded is changed, and a new one is added, unless an earlier item has added
-- it, which breaks the unique key.
unfoldable pub set_feature : String → Bool → PlanFeatureInput → Exec (Unit {0})
set_feature plan_id true item = modify (λ t. record t {
  plan_features =
      update_rows (is_feature_of plan_id item.feature_id) (with_input item) t.plan_features;
})
set_feature plan_id false item = do
  id ← new_uuid
  taken ← select (λ t. any (is_feature_of plan_id item.feature_id) t.plan_features)
  free_or_raise taken
  modify (λ t. record t { plan_features = t.plan_features ++ plan_feature_of plan_id item id ∷ [] })

abbrev pub feature_by_id : String → Tables → Option Feature
feature_by_id id t = find_row (λ (f : Feature). str_eq f.id id) t.features

unfoldable pub set_item : String → List PlanFeature → PlanFeatureInput → Exec (Unit {0})
unfolding set_feature
set_item plan_id existing item = do
  found ← select (feature_by_id item.feature_id)
  or_raise found feature_not_found
  set_feature plan_id (any (is_feature_of plan_id item.feature_id) existing) item

unfoldable pub set_features : String → List PlanFeature → List PlanFeatureInput → Exec (Unit {0})
unfolding set_item
set_features plan_id existing [] = pure tt
set_features plan_id existing (item ∷ rest) =
    set_item plan_id existing item >> set_features plan_id existing rest

-- The rows of the items, in their order.
unfoldable pub rows_of : String → List PlanFeatureInput → List PlanFeature → List PlanFeature
rows_of plan_id [] rows = []
rows_of plan_id (item ∷ rest) rows =
    let later = rows_of plan_id rest rows in
    elim (find_row (is_feature_of plan_id item.feature_id) rows) [
      | none ↦ later
      | some r ↦ r ∷ later
    ]

-- `set_plan_features`
unfoldable pub set_plan_features : String → List PlanFeatureInput → Exec (List PlanFeature)
unfolding get_plan_or_raise set_features rows_of
set_plan_features plan_id items = do
  plan ← get_plan_or_raise plan_id
  assert_plan_is_draft plan.published_at
  existing ← select (λ t. t.plan_features)
  set_features plan_id existing items
  select (λ t. rows_of plan_id items t.plan_features)

abbrev pub published_plan : ℕ → Plan → Plan
published_plan now p = record p { published_at = some now }

-- `publish_plan`
unfoldable pub publish_plan : String → Exec Plan
unfolding get_plan_or_raise
publish_plan plan_id = do
  plan ← get_plan_or_raise plan_id
  assert_plan_is_draft plan.published_at
  now ← now_utc
  modify (λ t. record t {
    plans = update_rows (λ (p : Plan). str_eq p.id plan_id) (published_plan now) t.plans;
  })
  pure (published_plan now plan)
