-- ===== src/Catalog/Published.antt =====
-- What is published stays as it is: src/billing_platform/services/catalog.py.
use saas_billing_entitlement.Prelude.{
  ℕ, ◌+◌, ◌≡◌, refl, ap, sym, subst, ◌∙◌, Bool, Bool-cases, Option-cases, inl, inr, Option, some,
  String, List, [], ◌∷◌, any, find_row-append_some,
}
use saas_billing_entitlement.Prelude.Int.{ℤ}
use saas_billing_entitlement.Prelude.Text.{str_eq, eq_iff}
use saas_billing_entitlement.Db.Rows.{Plan, Price, PlanFeature, Tables}
use saas_billing_entitlement.Db.Session.{Session}
use saas_billing_entitlement.Subscriptions.{plan_by_id}
use saas_billing_entitlement.Catalog.{
  create_product, NewPlan, create_plan, plan_of, get_plan_or_raise, NewPrice, create_price,
  create_feature, PlanFeatureInput, set_plan_features, publish_plan, product_by_id, is_draft_of,
  max_version,
}
use saas_billing_entitlement.Catalog.Frame.{
  offer, create_product-Keeps, create_feature-Keeps, set_plan_features-Keeps, publish_plan-Keeps,
  create_price-Keeps,
}

-- The operations of the catalog that write.
pub data Edit : Type 0 where
  new_product : String → String → Option String → Bool → Edit
  new_plan : NewPlan → Edit
  new_price : NewPrice → Edit
  new_feature : String → String → Option ℤ → Option String → Edit
  new_rows : String → List PlanFeatureInput → Edit
  publication : String → Edit

-- The session after an operation, also after one that raised, with what it had written before.
unfoldable pub edit : Edit → Session → Session
edit (new_product key name description is_active) s =
    (create_product key name description is_active s).1
edit (new_plan n) s = (create_plan n s).1
edit (new_price n) s = (create_price n s).1
edit (new_feature key feature_type default_limit reset_interval) s =
    (create_feature key feature_type default_limit reset_interval s).1
edit (new_rows plan_id items) s = (set_plan_features plan_id items s).1
edit (publication plan_id) s = (publish_plan plan_id s).1

unfoldable pub edits : List Edit → Session → Session
unfolding edit
edits [] s = s
edits (e ∷ rest) s = edits rest (edit e s)

-- A plan that is found under an id, and published.
pub record IsPublished (id : String) (p : Plan) (t : Tables) : Type 0 where
  pub stored : plan_by_id id t ≡ some p
  pub at : ℕ
  pub is_out : p.published_at ≡ some at

module _ (id : String) (p : Plan) (s : Session) (h : IsPublished id p s.tables) where
  create_plan-offer : (n : NewPlan) → offer id (create_plan n s).1.tables ≡ offer id s.tables
  unfolding create_plan
  create_plan-offer n = elim (Option-cases (product_by_id n.product_id s.tables)) [
    | inl unknown ↦ rw unknown refl
    | inr (product, known) ↦
        elim (Bool-cases (any (is_draft_of n.product_id n.key) s.tables.plans)) [
          | inl drafted ↦ rw (known, drafted) refl
          | inr free ↦
              let row =
                plan_of n (s.host.uuid7 s.uuids)
                  (max_version n.product_id n.key s.tables.plans + 1) in
              rw (known, free)
                (rw
                  (
                    find_row-append_some (λ (x : Plan). str_eq x.id id) s.tables.plans (row ∷ [])
                        h.stored,
                    h.stored,
                  )
                  refl)
        ]
  ]

  price-offer : (n : NewPrice) → offer id (create_price n s).1.tables ≡ offer id s.tables
  unfolding create_price get_plan_or_raise
  price-offer n = elim (Bool-cases (str_eq n.plan_id id)) [
    | inr apart ↦ (create_price-Keeps id n apart).at s
    | inl same ↦
        let there : plan_by_id n.plan_id s.tables ≡ some p =
          subst (λ i. plan_by_id i s.tables ≡ some p) (sym ((eq_iff n.plan_id id).0 same))
            h.stored in
        rw (there, h.is_out) refl
  ]

  rows-offer :
      (plan_id : String) (items : List PlanFeatureInput)
      → offer id (set_plan_features plan_id items s).1.tables ≡ offer id s.tables
  unfolding set_plan_features get_plan_or_raise
  rows-offer plan_id items = elim (Bool-cases (str_eq plan_id id)) [
    | inr apart ↦ (set_plan_features-Keeps id plan_id apart items).at s
    | inl same ↦
        let there : plan_by_id plan_id s.tables ≡ some p =
          subst (λ i. plan_by_id i s.tables ≡ some p) (sym ((eq_iff plan_id id).0 same)) h.stored in
        rw (there, h.is_out) refl
  ]

  publish-offer :
      (plan_id : String) → offer id (publish_plan plan_id s).1.tables ≡ offer id s.tables
  unfolding publish_plan get_plan_or_raise
  publish-offer plan_id = elim (Bool-cases (str_eq plan_id id)) [
    | inr apart ↦ (publish_plan-Keeps id plan_id apart).at s
    | inl same ↦
        let there : plan_by_id plan_id s.tables ≡ some p =
          subst (λ i. plan_by_id i s.tables ≡ some p) (sym ((eq_iff plan_id id).0 same)) h.stored in
        rw (there, h.is_out) refl
  ]

  edit-offer : (e : Edit) → offer id (edit e s).tables ≡ offer id s.tables
  unfolding edit
  edit-offer (new_product key name description is_active) =
      (create_product-Keeps id key name description is_active).at s
  edit-offer (new_plan n) = create_plan-offer n
  edit-offer (new_price n) = price-offer n
  edit-offer (new_feature key feature_type default_limit reset_interval) =
      (create_feature-Keeps id key feature_type default_limit reset_interval).at s
  edit-offer (new_rows plan_id items) = rows-offer plan_id items
  edit-offer (publication plan_id) = publish-offer plan_id

-- A published plan is fixed: whatever operations of the catalog follow, on this plan or on others, the
-- plan's row, its prices and its features are what they were.
pub edits-offer :
    (id : String) (p : Plan) (changes : List Edit) (s : Session)
    → IsPublished id p s.tables
    → offer id (edits changes s).tables ≡ offer id s.tables
unfolding edits
edits-offer id p [] s h = refl
edits-offer id p (e ∷ changes) s h =
    let once = edit-offer id p s h e in
    let h' : IsPublished id p (edit e s).tables = record {
      stored = ap (λ (o : Option Plan × List Price × List PlanFeature). o.0) once ∙ h.stored;
      at = h.at;
      is_out = h.is_out;
    } in
    edits-offer id p changes (edit e s) h' ∙ once
