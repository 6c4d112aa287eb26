-- ===== src/Reconciliation/Compare.antt =====
-- The comparisons of src/billing_platform/services/reconciliation.py. An invoice of the payment provider
-- is the JSON object that the provider sent.
use saas_billing_entitlement.Prelude.{
  ℕ, Bool, true, false, Option, none, some, String, List, [], ◌∷◌, ◌++◌, if◌then◌else◌, any,
}
use saas_billing_entitlement.Prelude.Int.{ℤ, pos, ◌-ℤ◌, ◌==ℤ◌}
use saas_billing_entitlement.Prelude.Text.{str_eq}
use saas_billing_entitlement.Db.Json.{
  as_int, as_str, or_else, is_text, Json, null, int, str, Dict, get,
}
use saas_billing_entitlement.Db.Rows.{
  LedgerEntry, EntryType, invoice_paid, usage_charge, Tables, Discrepancy, missing_in_platform,
  missing_in_stripe, amount_mismatch, status_mismatch,
}

pub record PlatformInvoiceRecord : Type 0 where
  pub amount_cents : ℤ
  pub currency : String
  pub status : String
  pub organization_id : ℕ

-- `compare_amounts` and `compare_ledger_to_invoice`: the difference of what is expected and what is
-- found, if there is one.
unfoldable pub compare_amounts : ℤ → ℤ → Option ℤ
compare_amounts expected actual = if expected ==ℤ actual then none else some (expected -ℤ actual)

unfoldable pub compare_ledger_to_invoice : ℤ → ℤ → Option ℤ
compare_ledger_to_invoice ledger_total invoice_total =
    if ledger_total ==ℤ invoice_total then none else some (invoice_total -ℤ ledger_total)

-- `_stripe_invoice_amount_cents`
abbrev first_int : Option ℤ → Option ℤ → ℤ
first_int (some n) _ = n
first_int none m = or_else m (pos 0)

unfoldable pub stripe_invoice_amount_cents : Dict → ℤ
stripe_invoice_amount_cents i =
    first_int
      (if is_text (as_str (get "status" i)) "paid" then as_int (get "amount_paid" i) else none)
      (as_int (get "amount_due" i))

-- `_stripe_invoice_status`
unfoldable pub stripe_invoice_status : Dict → String
stripe_invoice_status i = or_else (as_str (get "status" i)) "unknown"

-- A text that is not empty.
abbrev pub nonempty : Option String → Option String
nonempty none = none
nonempty (some s) = if str_eq s "" then none else some s

unfoldable pub stripe_invoice_id : Dict → Option String
stripe_invoice_id i = nonempty (as_str (get "id" i))

abbrev pub Index : Type 0
Index = List (String × PlatformInvoiceRecord)

unfoldable pub index_get : String → Index → Option PlatformInvoiceRecord
index_get key [] = none
index_get key ((k, v) ∷ rest) =
    let later = index_get key rest in if str_eq key k then some v else later

-- `index[key] = v`: a key that is there keeps its place.
unfoldable pub index_set : String → PlatformInvoiceRecord → Index → Index
index_set key v [] = (key, v) ∷ []
index_set key v ((k, w) ∷ rest) =
    let later = index_set key v rest in if str_eq key k then (k, v) ∷ rest else (k, w) ∷ later

abbrev pub is_entry_type : EntryType → EntryType → Bool
is_entry_type invoice_paid invoice_paid = true
is_entry_type usage_charge usage_charge = true
is_entry_type _ _ = false

-- The loop of `_load_platform_invoice_index`, over the entries of type `invoice_paid`.
unfoldable pub index_entries : List LedgerEntry → Index → Index
unfolding index_set
index_entries [] index = index
index_entries (e ∷ rest) index =
    index_entries rest
      (elim (if is_entry_type e.entry_type invoice_paid
        then nonempty (as_str (get "invoice_external_id" e.metadata))
        else none) [
          | none ↦ index
          | some external_id ↦
              index_set external_id
                (record {
                  amount_cents = e.amount_cents;
                  currency = e.currency;
                  status = "paid";
                  organization_id = e.organization_id;
                })
                index
        ])

unfoldable pub load_platform_invoice_index : Tables → Index
unfolding index_entries
load_platform_invoice_index t = index_entries t.ledger []

abbrev json_or_null : Option Json → Json
json_or_null none = null
json_or_null (some v) = v

pub missing_platform : String → Dict → Discrepancy
missing_platform id i = record {
  kind = missing_in_platform;
  external_invoice_id = some id;
  expected_amount_cents = some (stripe_invoice_amount_cents i);
  actual_amount_cents = none;
  delta_cents = none;
  details =
      ("stripe_status", str (stripe_invoice_status i))
      ∷ ("currency", json_or_null (get "currency" i))
      ∷ [];
}

-- The amounts of an invoice that both sides know.
unfoldable pub amount_findings : String → Dict → PlatformInvoiceRecord → List Discrepancy
amount_findings id i p = elim (compare_amounts (stripe_invoice_amount_cents i) p.amount_cents) [
  | none ↦ []
  | some delta ↦
      record {
        kind = amount_mismatch;
        external_invoice_id = some id;
        expected_amount_cents = some (stripe_invoice_amount_cents i);
        actual_amount_cents = some p.amount_cents;
        delta_cents = some delta;
        details =
            ("stripe_status", str (stripe_invoice_status i))
            ∷ ("platform_status", str p.status)
            ∷ ("currency", str p.currency)
            ∷ ("organization_id", int (pos p.organization_id))
            ∷ [];
      }
      ∷ []
]

-- Its statuses.
unfoldable pub status_findings : String → Dict → PlatformInvoiceRecord → List Discrepancy
status_findings id i p =
    if str_eq (stripe_invoice_status i) p.status
    then []
    else record {
      kind = status_mismatch;
      external_invoice_id = some id;
      expected_amount_cents = some (stripe_invoice_amount_cents i);
      actual_amount_cents = some p.amount_cents;
      delta_cents = none;
      details =
          ("stripe_status", str (stripe_invoice_status i))
          ∷ ("platform_status", str p.status)
          ∷ ("organization_id", int (pos p.organization_id))
          ∷ [];
    }
      ∷ []

unfoldable pub findings_for : String → Dict → Option PlatformInvoiceRecord → List Discrepancy
findings_for id i none = missing_platform id i ∷ []
findings_for id i (some p) = amount_findings id i p ++ status_findings id i p

-- The first loop of `_detect_discrepancies`: its findings, and the ids that it has seen.
unfoldable pub stripe_side : Index → List Dict → List Discrepancy × List String
stripe_side index [] = ([], [])
stripe_side index (i ∷ rest) =
    let (found, seen) = stripe_side index rest in
    elim (stripe_invoice_id i) [
      | none ↦ (found, seen)
      | some id ↦ (findings_for id i (index_get id index) ++ found, id ∷ seen)
    ]

pub missing_stripe : String → PlatformInvoiceRecord → Discrepancy
missing_stripe id p = record {
  kind = missing_in_stripe;
  external_invoice_id = some id;
  expected_amount_cents = some p.amount_cents;
  actual_amount_cents = none;
  delta_cents = none;
  details =
      ("platform_status", str p.status)
      ∷ ("currency", str p.currency)
      ∷ ("organization_id", int (pos p.organization_id))
      ∷ [];
}

-- The second loop.
unfoldable pub platform_side : List String → Index → List Discrepancy
platform_side seen [] = []
platform_side seen ((id, p) ∷ rest) =
    let later = platform_side seen rest in
    if any (str_eq id) seen then later else missing_stripe id p ∷ later

-- `_detect_discrepancies`
unfoldable pub detect_discrepancies : List Dict → Index → List Discrepancy
detect_discrepancies invoices index =
    let (found, seen) = stripe_side index invoices in found ++ platform_side seen index
