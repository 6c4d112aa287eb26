-- ===== src/Reconciliation/Totals.antt =====
-- The comparison of invoices with the ledger: `_ledger_total_for_invoice` and
-- `_detect_ledger_invoice_discrepancies` of src/billing_platform/services/reconciliation.py.
use saas_billing_entitlement.Prelude.{
  ℕ, ◌==◌, Bool, false, ◌&&◌, Option, none, some, String, List, [], ◌∷◌, if◌then◌else◌, find_row,
}
use saas_billing_entitlement.Prelude.Int.{ℤ, pos, ◌+ℤ◌, ltb_ℤ}
use saas_billing_entitlement.Db.Json.{int, str, get}
use saas_billing_entitlement.Db.Rows.{
  Invoice, InvoiceStatus, draft, open_invoice, paid, void, uncollectible, LedgerEntry, EntryType,
  invoice_paid, usage_charge, Tables, Discrepancy, ledger_invoice_mismatch,
}
use saas_billing_entitlement.Reconciliation.Compare.{
  nonempty, is_entry_type, compare_ledger_to_invoice,
}
use saas_billing_entitlement.Db.Json.{as_str, is_text}

-- `_sum_ledger_entries_for_invoice`
abbrev same_id : Option ℕ → ℕ → Bool
same_id none id = false
same_id (some n) id = n == id

unfoldable pub sum_ledger_entries_for_invoice : ℕ → EntryType → List LedgerEntry → ℤ
sum_ledger_entries_for_invoice id entry_type [] = pos 0
sum_ledger_entries_for_invoice id entry_type (e ∷ rest) =
    (if same_id e.invoice_id id && is_entry_type e.entry_type entry_type
      then e.amount_cents
      else pos 0)
    +ℤ sum_ledger_entries_for_invoice id entry_type rest

-- An `invoice_paid` entry that names the external id in its metadata.
abbrev names_external : String → LedgerEntry → Bool
names_external external_id e =
    is_entry_type e.entry_type invoice_paid
    && is_text (as_str (get "invoice_external_id" e.metadata)) external_id

abbrev amount_of_entry : Option LedgerEntry → ℤ
amount_of_entry none = pos 0
amount_of_entry (some e) = e.amount_cents

unfoldable pub external_total : Option String → List LedgerEntry → ℤ
external_total none ledger = pos 0
external_total (some external_id) ledger =
    amount_of_entry (find_row (names_external external_id) ledger)

-- `_ledger_total_for_invoice`
unfoldable pub ledger_total_for_invoice : Tables → Invoice → ℤ
unfolding external_total
ledger_total_for_invoice t i =
    let usage_total = sum_ledger_entries_for_invoice i.id usage_charge t.ledger in
    let paid_total = sum_ledger_entries_for_invoice i.id invoice_paid t.ledger in
    if ltb_ℤ (pos 0) usage_total
    then usage_total
    else if ltb_ℤ (pos 0) paid_total
    then paid_total
    else external_total (nonempty i.external_invoice_id) t.ledger

abbrev invoice_status_value : InvoiceStatus → String
invoice_status_value draft = "draft"
invoice_status_value open_invoice = "open"
invoice_status_value paid = "paid"
invoice_status_value void = "void"
invoice_status_value uncollectible = "uncollectible"

pub ledger_finding : Invoice → ℤ → ℤ → Discrepancy
ledger_finding i ledger_total delta = record {
  kind = ledger_invoice_mismatch;
  external_invoice_id = i.external_invoice_id;
  expected_amount_cents = some i.total_amount_cents;
  actual_amount_cents = some ledger_total;
  delta_cents = some delta;
  details =
      ("invoice_public_id", str i.public_id)
      ∷ ("organization_id", int (pos i.organization_id))
      ∷ ("invoice_status", str (invoice_status_value i.status))
      ∷ ("currency", str i.currency)
      ∷ [];
}

-- The loop of `_detect_ledger_invoice_discrepancies`.
unfoldable pub ledger_side : Tables → List Invoice → List Discrepancy
ledger_side t [] = []
ledger_side t (i ∷ rest) =
    let later = ledger_side t rest in
    elim (compare_ledger_to_invoice (ledger_total_for_invoice t i) i.total_amount_cents) [
      | none ↦ later
      | some delta ↦ ledger_finding i (ledger_total_for_invoice t i) delta ∷ later
    ]

unfoldable pub detect_ledger_invoice_discrepancies : Tables → List Discrepancy
detect_ledger_invoice_discrepancies t = ledger_side t t.invoices
