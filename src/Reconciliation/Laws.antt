-- ===== src/Reconciliation/Laws.antt =====
-- What the comparisons of src/billing_platform/services/reconciliation.py find.
use saas_billing_entitlement.Prelude.{
  ◌≡◌, refl, ◌↔◌, sym, subst, true, Bool-cases, inl, inr, Option, none, some, some_inj,
  Option-cases, String, List, [], ◌∷◌, ◌++◌, arith, any, All,
}
use saas_billing_entitlement.Prelude.Int.{ℤ}
use saas_billing_entitlement.Prelude.Text.{str_eq, eq_iff}
use saas_billing_entitlement.Db.Json.{Dict}
use saas_billing_entitlement.Reconciliation.Compare.{
  PlatformInvoiceRecord, Index, compare_amounts, stripe_invoice_amount_cents, stripe_invoice_status,
  stripe_invoice_id, index_get, amount_findings, status_findings, findings_for, stripe_side,
  platform_side, detect_discrepancies,
}

-- A record of the platform agrees with an invoice of the provider.
abbrev pub Matches : Dict → PlatformInvoiceRecord → Type 0
Matches i p =
    (stripe_invoice_amount_cents i ≡ p.amount_cents) × (stripe_invoice_status i ≡ p.status)

abbrev pub AgreesAt : Index → Dict → Option String → Type 0
AgreesAt index i none = Unit
AgreesAt index i (some id) =
    (p : PlatformInvoiceRecord) × (index_get id index ≡ some p) × Matches i p

-- The platform knows the invoice, if it has an id, with the same amount and status.
abbrev pub Agrees : Index → Dict → Type 0
Agrees index i = AgreesAt index i (stripe_invoice_id i)

-- The ids of the provider's invoices.
abbrev pub prepend : Option String → List String → List String
prepend none ids = ids
prepend (some id) ids = id ∷ ids

pub stripe_ids : List Dict → List String
stripe_ids [] = []
stripe_ids (i ∷ rest) = prepend (stripe_invoice_id i) (stripe_ids rest)

append-eq-nil {ℓ} : {A : Type ℓ} (xs ys : List A) → (xs ++ ys ≡ []) ↔ ((xs ≡ []) × (ys ≡ []))
append-eq-nil [] ys = (λ h. (refl, h), λ h. h.1)
append-eq-nil (x ∷ xs) ys = (λ h. cc, λ h. cc (h.0))

compare_amounts_iff : (a b : ℤ) → (compare_amounts a b ≡ none) ↔ (a ≡ b)
unfolding compare_amounts
compare_amounts_iff a b = ground arith

amount_findings_iff :
    (id : String) (i : Dict) (p : PlatformInvoiceRecord)
    → (amount_findings id i p ≡ []) ↔ (stripe_invoice_amount_cents i ≡ p.amount_cents)
unfolding amount_findings
amount_findings_iff id i p =
    elim (Option-cases (compare_amounts (stripe_invoice_amount_cents i) p.amount_cents)) [
      | inl equal ↦
          rw (equal, amount_findings) ((λ _. (compare_amounts_iff _ _).0 equal), λ _. refl)
      | inr (d, e) ↦ rw (e, amount_findings) ((λ h. cc), λ h. cc (e, (compare_amounts_iff _ _).1 h))
    ]

status_findings_iff :
    (id : String) (i : Dict) (p : PlatformInvoiceRecord)
    → (status_findings id i p ≡ []) ↔ (stripe_invoice_status i ≡ p.status)
unfolding status_findings
status_findings_iff id i p = ground (arith, eq_iff (stripe_invoice_status i) p.status)

findings_for-empty :
    (id : String) (i : Dict) (o : Option PlatformInvoiceRecord)
    → (findings_for id i o ≡ []) ↔ ((p : PlatformInvoiceRecord) × (o ≡ some p) × Matches i p)
unfolding findings_for
findings_for-empty id i none = (λ h. cc, λ h. cc (h.1))
findings_for-empty id i (some p) =
    let both = append-eq-nil (amount_findings id i p) (status_findings id i p) in
    (
      λ h. (
        p,
        refl,
        ((amount_findings_iff id i p).0 (both.0 h).0, (status_findings_iff id i p).0 (both.0 h).1),
      ),
      λ h.
          let e : h.0 ≡ p = sym (some_inj h.1) in
          both.1 (
            (amount_findings_iff id i p).1
                (subst (λ q. stripe_invoice_amount_cents i ≡ q.amount_cents) e h.2.0),
            (status_findings_iff id i p).1
                (subst (λ q. stripe_invoice_status i ≡ q.status) e h.2.1),
          ),
    )

stripe_side-cons :
    (index : Index) (i : Dict) (rest : List Dict)
    → stripe_side index (i ∷ rest) ≡ elim (stripe_invoice_id i) [
      | none ↦ stripe_side index rest
      | some id ↦ (
        findings_for id i (index_get id index) ++ (stripe_side index rest).0,
        id ∷ (stripe_side index rest).1,
      )
    ]
unfolding stripe_side
stripe_side-cons index i rest = refl

stripe_side-seen :
    (index : Index) (invoices : List Dict) → (stripe_side index invoices).1 ≡ stripe_ids invoices
unfolding stripe_ids
stripe_side-seen index [] = unfold stripe_side in refl
stripe_side-seen index (i ∷ rest) =
    ground (arith, stripe_side-cons index i rest, stripe_side-seen index rest)

stripe_side-empty :
    (index : Index) (invoices : List Dict)
    → ((stripe_side index invoices).0 ≡ []) ↔ All (Agrees index) invoices
stripe_side-empty index [] = (λ _. tt, λ _. unfold stripe_side in refl)
stripe_side-empty index (i ∷ rest) = elim (Option-cases (stripe_invoice_id i)) [
  | inl skipped ↦
      let ih = stripe_side-empty index rest in
      rw (stripe_side-cons index i rest) (rw skipped ((λ h. (tt, ih.0 h)), λ h. ih.1 h.1))
  | inr (id, e) ↦
      let ih = stripe_side-empty index rest in
      let here = findings_for-empty id i (index_get id index) in
      let both =
        append-eq-nil (findings_for id i (index_get id index)) (stripe_side index rest).0 in
      rw (stripe_side-cons index i rest)
        (rw e ((λ h. (here.0 (both.0 h).0, ih.0 (both.0 h).1)), λ h. both.1 (here.1 h.0, ih.1 h.1)))
]

abbrev pub IsSeen : List String → String × PlatformInvoiceRecord → Type 0
IsSeen seen e = any (str_eq e.0) seen ≡ true

platform_side-empty :
    (seen : List String) (index : Index) → (platform_side seen index ≡ []) ↔ All (IsSeen seen) index
unfolding platform_side
platform_side-empty seen [] = (λ _. tt, λ _. refl)
platform_side-empty seen (e ∷ rest) = elim (Bool-cases (any (str_eq e.0) seen)) [
  | inl there ↦
      let ih = platform_side-empty seen rest in rw there ((λ h. (refl, ih.0 h)), λ h. ih.1 h.1)
  | inr missing ↦ rw missing ((λ h. cc), λ h. cc (h.0))
]

-- The comparison reports nothing exactly when both registries agree: every invoice of the provider that
-- has an id is known to the platform with the same amount and status, and every invoice of the platform
-- is among the ids of the provider.
pub detect_discrepancies-empty_iff :
    (invoices : List Dict) (index : Index)
    → (detect_discrepancies invoices index ≡ [])
      ↔ (All (Agrees index) invoices × All (IsSeen (stripe_ids invoices)) index)
unfolding detect_discrepancies
detect_discrepancies-empty_iff invoices index =
    let found = (stripe_side index invoices).0 in
    let both = append-eq-nil found (platform_side (stripe_ids invoices) index) in
    let left = stripe_side-empty index invoices in
    let right = platform_side-empty (stripe_ids invoices) index in
    rw (stripe_side-seen index invoices)
      ((λ h. (left.0 (both.0 h).0, right.0 (both.0 h).1)), λ h. both.1 (left.1 h.0, right.1 h.1))
