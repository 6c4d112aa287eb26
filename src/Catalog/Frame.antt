-- ===== src/Catalog/Frame.antt =====
-- A published plan is fixed: src/billing_platform/services/catalog.py.
use saas_billing_entitlement.Prelude.{
  ℕ, ◌≡◌, refl, sym, subst, Bool, true, false, Option, none, some, String, List, [], ◌∷◌, ◌++◌,
  arith, where_rows, find_row, update_rows,
}
use saas_billing_entitlement.Prelude.Int.{ℤ}
use saas_billing_entitlement.Prelude.Text.{str_eq, eq_iff}
use saas_billing_entitlement.Db.Rows.{Product, Plan, Price, Feature, PlanFeature, Tables}
use saas_billing_entitlement.Db.Session.{modify}
use saas_billing_entitlement.Db.Keeps.{Keeps, keeps, pure-Keeps, raise-Keeps, bind-Keeps}
use saas_billing_entitlement.Subscriptions.{plan_by_id}
use saas_billing_entitlement.Catalog.{
  create_product, free_or_raise, get_plan_or_raise, assert_plan_is_draft, NewPrice, create_price,
  create_feature, allowed_or_raise, PlanFeatureInput, is_feature_of, with_input, set_feature,
  set_item, set_features, set_plan_features, published_plan, publish_plan,
}

abbrev is_price_of : String → Price → Bool
is_price_of id p = str_eq p.plan_id id

abbrev is_row_of : String → PlanFeature → Bool
is_row_of id r = str_eq r.plan_id id

-- What a plan offers: its row, its prices and its features.
abbrev pub offer : String → Tables → Option Plan × List Price × List PlanFeature
offer id t = (
  plan_by_id id t,
  where_rows (is_price_of id) t.prices,
  where_rows (is_row_of id) t.plan_features,
)

where-append_other {ℓ} :
    {A : Type ℓ} (p : A → Bool) (xs : List A) (y : A)
    → p y ≡ false
    → where_rows p (xs ++ y ∷ []) ≡ where_rows p xs
where-append_other p [] y h = rw h refl
where-append_other p (x ∷ xs) y h = ground (arith, where-append_other p xs y h)

where-update_other {ℓ} :
    {A : Type ℓ} (p q : A → Bool) (f : A → A) (xs : List A)
    → ((x : A) → q x ≡ true → p x ≡ false)
    → ((x : A) → p (f x) ≡ p x)
    → where_rows p (update_rows q f xs) ≡ where_rows p xs
where-update_other p q f [] apart kept = refl
where-update_other p q f (x ∷ xs) apart kept =
    ground (arith, apart x, kept x, where-update_other p q f xs apart kept)

find-update_other {ℓ} :
    {A : Type ℓ} (p q : A → Bool) (f : A → A) (xs : List A)
    → ((x : A) → q x ≡ true → p x ≡ false)
    → ((x : A) → p (f x) ≡ p x)
    → find_row p (update_rows q f xs) ≡ find_row p xs
find-update_other p q f [] apart kept = refl
find-update_other p q f (x ∷ xs) apart kept =
    ground (arith, apart x, kept x, find-update_other p q f xs apart kept)

-- A text that equals one text does not equal another.
apart_text : (a b c : String) → str_eq b c ≡ false → str_eq a b ≡ true → str_eq a c ≡ false
apart_text a b c h e = subst (λ x. str_eq x c ≡ false) (sym ((eq_iff a b).0 e)) h

-- The parts of an offer.
offer-parts :
    (id : String) (t t' : Tables)
    → plan_by_id id t' ≡ plan_by_id id t
    → where_rows (is_price_of id) t'.prices ≡ where_rows (is_price_of id) t.prices
    → where_rows (is_row_of id) t'.plan_features ≡ where_rows (is_row_of id) t.plan_features
    → offer id t' ≡ offer id t
offer-parts id t t' plan prices rows = rw (plan, prices, rows) refl

module _ (id : String) where
  free-Keeps : (taken : Bool) → Keeps (offer id) (free_or_raise taken)
  free-Keeps true = raise-Keeps (offer id) _
  free-Keeps false = pure-Keeps (offer id) tt

  products-Keeps :
      (f : Tables → List Product) → Keeps (offer id) (modify (λ t. record t { products = f t }))
  products-Keeps f = record { at = λ s. refl }

  features-Keeps :
      (f : Tables → List Feature) → Keeps (offer id) (modify (λ t. record t { features = f t }))
  features-Keeps f = record { at = λ s. refl }

  allowed-Keeps : (b : Bool) → Keeps (offer id) (allowed_or_raise b)
  allowed-Keeps true = pure-Keeps (offer id) tt
  allowed-Keeps false = raise-Keeps (offer id) _

  draft-Keeps : (o : Option ℕ) → Keeps (offer id) (assert_plan_is_draft o)
  draft-Keeps none = pure-Keeps (offer id) tt
  draft-Keeps (some at) = raise-Keeps (offer id) _

  pub create_product-Keeps :
      (key name : String) (description : Option String) (is_active : Bool)
      → Keeps (offer id) (create_product key name description is_active)
  unfolding create_product
  create_product-Keeps key name description is_active =
      search (keeps, free-Keeps, products-Keeps) depth 20

  pub create_feature-Keeps :
      (key feature_type : String) (default_limit : Option ℤ) (reset_interval : Option String)
      → Keeps (offer id) (create_feature key feature_type default_limit reset_interval)
  unfolding create_feature
  create_feature-Keeps key feature_type default_limit reset_interval =
      search (keeps, free-Keeps, allowed-Keeps, features-Keeps) depth 20

  -- What is done to another plan.
  module _ (other : String) (apart : str_eq other id ≡ false) where
    get_plan-Keeps : Keeps (offer id) (get_plan_or_raise other)
    unfolding get_plan_or_raise
    get_plan-Keeps = search (keeps) depth 10

    add_row-Keeps :
        (r : PlanFeature)
        → str_eq r.plan_id id ≡ false
        → Keeps (offer id) (modify (λ t. record t { plan_features = t.plan_features ++ r ∷ [] }))
    add_row-Keeps r h = record {
      at = λ s.
          offer-parts id s.tables
            (record s.tables { plan_features = s.tables.plan_features ++ r ∷ [] }) refl refl
            (where-append_other (is_row_of id) s.tables.plan_features r h);
    }

    set_feature-Keeps :
        (there : Bool) (item : PlanFeatureInput) → Keeps (offer id) (set_feature other there item)
    unfolding set_feature
    set_feature-Keeps true item = record {
      at = λ s.
          offer-parts id s.tables
            (record s.tables {
              plan_features =
                  update_rows (is_feature_of other item.feature_id) (with_input item)
                    s.tables.plan_features;
            })
            refl refl
            (where-update_other (is_row_of id) (is_feature_of other item.feature_id)
              (with_input item) s.tables.plan_features
              (λ r e. apart_text r.plan_id other id apart (ground (arith, e))) (λ r. refl));
    }
    set_feature-Keeps false item = search (keeps, free-Keeps, add_row-Keeps) depth 20

    publish-Keeps :
        (now : ℕ)
        → Keeps (offer id) (
            modify (λ t. record t {
              plans = update_rows (λ (p : Plan). str_eq p.id other) (published_plan now) t.plans;
            }))
    publish-Keeps now = record {
      at = λ s.
          offer-parts id s.tables
            (record s.tables {
              plans =
                  update_rows (λ (p : Plan). str_eq p.id other) (published_plan now) s.tables.plans;
            })
            (find-update_other (λ (p : Plan). str_eq p.id id) (λ (p : Plan). str_eq p.id other)
              (published_plan now) s.tables.plans (λ p e. apart_text p.id other id apart e)
              (λ p. refl))
            refl refl;
    }

    set_item-Keeps :
        (existing : List PlanFeature) (item : PlanFeatureInput)
        → Keeps (offer id) (set_item other existing item)
    unfolding set_item
    set_item-Keeps existing item = search (keeps, set_feature-Keeps) depth 20

    set_features-Keeps :
        (existing : List PlanFeature) (items : List PlanFeatureInput)
        → Keeps (offer id) (set_features other existing items)
    unfolding set_features
    set_features-Keeps existing [] = pure-Keeps (offer id) tt
    set_features-Keeps existing (item ∷ items) =
        bind-Keeps (offer id) (set_item other existing item) _ (set_item-Keeps existing item)
          (λ _. set_features-Keeps existing items)

    pub set_plan_features-Keeps :
        (items : List PlanFeatureInput) → Keeps (offer id) (set_plan_features other items)
    unfolding set_plan_features
    set_plan_features-Keeps items =
        search (keeps, get_plan-Keeps, draft-Keeps, set_features-Keeps) depth 20

    pub publish_plan-Keeps : Keeps (offer id) (publish_plan other)
    unfolding publish_plan
    publish_plan-Keeps = search (keeps, get_plan-Keeps, draft-Keeps, publish-Keeps) depth 20

  add_price-Keeps :
      (p : Price)
      → str_eq p.plan_id id ≡ false
      → Keeps (offer id) (modify (λ t. record t { prices = t.prices ++ p ∷ [] }))
  add_price-Keeps p h = record {
    at = λ s.
        offer-parts id s.tables (record s.tables { prices = s.tables.prices ++ p ∷ [] }) refl
          (where-append_other (is_price_of id) s.tables.prices p h) refl;
  }

  pub create_price-Keeps :
      (n : NewPrice) → str_eq n.plan_id id ≡ false → Keeps (offer id) (create_price n)
  unfolding create_price
  create_price-Keeps n apart = search (keeps, get_plan-Keeps, draft-Keeps, add_price-Keeps) depth 20
