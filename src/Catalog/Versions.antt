-- ===== src/Catalog/Versions.antt =====
-- Drafts and versions of a plan: src/billing_platform/services/catalog.py.
use saas_billing_entitlement.Prelude.{
  ℕ, ◌+◌, ◌≤◌, ◌<◌, ◌==◌, ◌≡◌, refl, subst, Bool, true, Bool-cases, Option-cases, inl, inr, ◌&&◌,
  String, List, [], ◌∷◌, ◌++◌, arith, any, any-false_count, count_rows, count_rows-append,
}
use saas_billing_entitlement.Prelude.Text.{str_eq, eq_iff}
use saas_billing_entitlement.Db.Rows.{Plan, Tables}
use saas_billing_entitlement.Db.Session.{Session}
use saas_billing_entitlement.Catalog.{
  NewPlan, create_plan, plan_of, product_by_id, is_version_of, is_draft_of, max_version,
}

abbrev pub has_version : String → String → ℕ → Plan → Bool
has_version product_id key version p = is_version_of product_id key p && p.version == version

-- A key of a product has one draft at most, and no version twice.
pub record HasVersions (t : Tables) : Type 0 where
  pub one_draft : (product_id key : String) → count_rows (is_draft_of product_id key) t.plans ≤ 1
  pub one_version :
      (product_id key : String) (version : ℕ)
      → count_rows (has_version product_id key version) t.plans ≤ 1

-- No plan has a version above the highest.
count-above :
    (product_id key : String) (version : ℕ) (rows : List Plan)
    → max_version product_id key rows < version
    → count_rows (has_version product_id key version) rows ≡ 0
unfolding max_version
count-above product_id key version [] lt = refl
count-above product_id key version (p ∷ rows) lt =
    ground (arith, count-above product_id key version rows)

same_names :
    (product_id key : String) (n : NewPlan)
    → str_eq n.product_id product_id ≡ true
    → str_eq n.key key ≡ true
    → (n.product_id ≡ product_id) × (n.key ≡ key)
same_names product_id key n p k = ((eq_iff _ _).0 p, (eq_iff _ _).0 k)

-- One row more, whose own names and number no row had.
draft-fresh :
    (n : NewPlan) (id : String) (version : ℕ) (rows : List Plan) (product_id key : String)
    → count_rows (is_draft_of n.product_id n.key) rows ≡ 0
    → count_rows (is_draft_of product_id key) rows ≤ 1
    → count_rows (is_draft_of product_id key) (rows ++ plan_of n id version ∷ []) ≤ 1
draft-fresh n id version rows product_id key zero le =
    let sum = count_rows-append (is_draft_of product_id key) rows (plan_of n id version ∷ []) in
    elim (Bool-cases (is_version_of product_id key (plan_of n id version))) [
      | inr miss ↦ ground (arith, sum, miss, le)
      | inl hit ↦
          let (p, k) = same_names product_id key n (ground (arith, hit)) (ground (arith, hit)) in
          let zero' : count_rows (is_draft_of product_id key) rows ≡ 0 =
            subst (λ x. count_rows (is_draft_of x key) rows ≡ 0) p
              (subst (λ x. count_rows (is_draft_of n.product_id x) rows ≡ 0) k zero) in
          ground (arith, sum, zero')
    ]

version-fresh :
    (n : NewPlan) (id : String) (version : ℕ) (rows : List Plan) (product_id key : String) (v : ℕ)
    → count_rows (has_version n.product_id n.key version) rows ≡ 0
    → count_rows (has_version product_id key v) rows ≤ 1
    → count_rows (has_version product_id key v) (rows ++ plan_of n id version ∷ []) ≤ 1
version-fresh n id version rows product_id key v zero le =
    let sum = count_rows-append (has_version product_id key v) rows (plan_of n id version ∷ []) in
    elim (Bool-cases (has_version product_id key v (plan_of n id version))) [
      | inr miss ↦ ground (arith, sum, miss, le)
      | inl hit ↦
          let (p, k) = same_names product_id key n (ground (arith, hit)) (ground (arith, hit)) in
          let same : version ≡ v = ground (arith, hit) in
          let zero' : count_rows (has_version product_id key v) rows ≡ 0 =
            subst (λ x. count_rows (has_version x key v) rows ≡ 0) p
              (subst (λ x. count_rows (has_version n.product_id x v) rows ≡ 0) k
                (subst (λ x. count_rows (has_version n.product_id n.key x) rows ≡ 0) same zero)) in
          ground (arith, sum, zero')
    ]

-- Creating a plan keeps the drafts and versions apart: if each key of a product had one draft at most and
-- no version twice, so it is afterwards, whether the call succeeds, finds a draft, or finds no product.
pub create_plan-HasVersions :
    (n : NewPlan) (s : Session) → HasVersions s.tables → HasVersions (create_plan n s).1.tables
unfolding create_plan
create_plan-HasVersions n s h = elim (Option-cases (product_by_id n.product_id s.tables)) [
  | inl unknown ↦ rw unknown h
  | inr (product, known) ↦ elim (Bool-cases (any (is_draft_of n.product_id n.key) s.tables.plans)) [
    | inl drafted ↦ rw (known, drafted) h
    | inr free ↦
        let rows = s.tables.plans in
        let version = max_version n.product_id n.key rows + 1 in
        let id = s.host.uuid7 s.uuids in
        rw (known, free)
          (record {
            one_draft = λ product_id key.
                draft-fresh n id version rows product_id key (any-false_count _ rows free)
                  (h.one_draft product_id key);
            one_version = λ product_id key v.
                version-fresh n id version rows product_id key v
                  (count-above n.product_id n.key version rows (omega arith))
                  (h.one_version product_id key v);
          })
  ]
]
