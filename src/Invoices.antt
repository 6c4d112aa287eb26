-- ===== src/Invoices.antt =====
-- Invoices and their line items: src/billing_platform/services/invoices.py.
pub mod Laws
pub mod Totals
use saas_billing_entitlement.Prelude.{
  ℕ, ◌==◌, ◌&&◌, not, is_some, any, Bool, Option, none, some, String, List, [], ◌∷◌, ◌++◌,
  if◌then◌else◌, find_row, update_rows,
}
use saas_billing_entitlement.Prelude.Int.{ℤ, pos, ◌+ℤ◌, ◌*ℤ◌}
use saas_billing_entitlement.Prelude.Text.{str_eq}
use saas_billing_entitlement.Db.Rows.{
  Invoice, InvoiceLineItem, InvoiceStatus, draft, open_invoice, paid, void, uncollectible, Tables,
}
use saas_billing_entitlement.Db.Session.{
  Session, Error, invoice_not_found, invoice_not_mutable, integrity_error, ok, Exec, pure, raise,
  gets, select, or_raise, modify, new_id, new_uuid, rollback, ◌>>=◌, ◌>>◌,
}
use saas_billing_entitlement.Ledger.{org_public_id}
use saas_billing_entitlement.Subscriptions.{subscription_has_id}

-- The keyword arguments of `create_draft_invoice`.
pub record Draft : Type 0 where
  pub organization_id : ℕ
  pub currency : String
  pub period_start : ℕ
  pub period_end : ℕ
  pub idempotency_key : String
  pub subscription_id : Option ℕ

-- The keyword arguments of `add_line_item`.
pub record Line : Type 0 where
  pub invoice_id : ℕ
  pub description : String
  pub quantity : ℤ
  pub unit_amount_cents : ℤ
  pub feature_key : Option String

unfoldable pub line_total_cents : ℤ → ℤ → ℤ
line_total_cents quantity unit_amount_cents = quantity *ℤ unit_amount_cents

abbrev pub invoice_has_key : String → Invoice → Bool
invoice_has_key key i = str_eq i.idempotency_key key

-- `_find_invoice_by_idempotency_key`
abbrev pub invoice_by_key : String → Tables → Option Invoice
invoice_by_key key t = find_row (invoice_has_key key) t.invoices

abbrev pub invoice_has_id : ℕ → Invoice → Bool
invoice_has_id id i = i.id == id

abbrev pub invoice_by_id : ℕ → Tables → Option Invoice
invoice_by_id id t = find_row (invoice_has_id id) t.invoices

-- Other transactions commit these invoices at this point.
unfoldable pub others_commit : List Invoice → Exec (Unit {0})
others_commit rivals s = (
  ok tt,
  record s {
    tables = record s.tables { invoices = s.tables.invoices ++ rivals };
    committed = record s.committed { invoices = s.committed.invoices ++ rivals };
  },
)

abbrev pub draft_of : Draft → ℕ → String → String → ℕ → Invoice
draft_of d id public_id currency created_at = record {
  id = id;
  public_id = public_id;
  organization_id = d.organization_id;
  subscription_id = d.subscription_id;
  status = draft;
  currency = currency;
  period_start = d.period_start;
  period_end = d.period_end;
  total_amount_cents = pos 0;
  external_invoice_id = none;
  idempotency_key = d.idempotency_key;
  created_at = created_at;
}

abbrev pub add_invoice : Invoice → Tables → Tables
add_invoice i t = record t { invoices = t.invoices ++ i ∷ [] }

-- The foreign keys of a new invoice: the rows that its columns name are there.
abbrev pub has_owner : Draft → Tables → Bool
has_owner d t = is_some (org_public_id d.organization_id t) && elim d.subscription_id [
  | none ↦ Bool.true
  | some id ↦ any (subscription_has_id id) t.subscriptions
]

-- `session.flush()` of a new invoice: its key is unique and its foreign keys name rows, else
-- `IntegrityError`, which the caller handles by a rollback and a second look.
unfoldable pub flush_draft : Invoice → Bool → Exec Invoice
flush_draft i Bool.true = do modify (add_invoice i); pure i
flush_draft i Bool.false = do
  rollback
  existing ← select (invoice_by_key i.idempotency_key)
  or_raise existing integrity_error

unfoldable pub create_unless : List Invoice → Draft → Option Invoice → Exec Invoice
unfolding others_commit flush_draft
create_unless rivals d (some existing) = pure existing
create_unless rivals d none = do
  public_id ← new_uuid
  id ← new_id
  upper ← gets (λ s. s.host.upper)
  created_at ← gets (λ s. s.transaction_time)
  others_commit rivals
  accepted ← select (λ t. has_owner d t && not (is_some (invoice_by_key d.idempotency_key t)))
  flush_draft (draft_of d id public_id (upper d.currency) created_at) accepted

-- `create_draft_invoice`; the list holds the invoices that other transactions commit between its
-- lookup and its insertion.
unfoldable pub create_draft_invoice : List Invoice → Draft → Exec Invoice
unfolding create_unless
create_draft_invoice rivals d = do
  existing ← select (invoice_by_key d.idempotency_key)
  create_unless rivals d existing

-- `SUM(amount_cents) WHERE invoice_id = ...`
unfoldable pub line_sum : ℕ → List InvoiceLineItem → ℤ
line_sum id [] = pos 0
line_sum id (l ∷ rest) = (if l.invoice_id == id then l.amount_cents else pos 0) +ℤ line_sum id rest

abbrev pub set_total : ℤ → Invoice → Invoice
set_total total i = record i { total_amount_cents = total }

-- `_recompute_invoice_total`; its `scalar_one` finds the invoice that its caller has just read.
unfoldable pub recompute_invoice_total : ℕ → Exec (Unit {0})
recompute_invoice_total id = do
  total ← select (λ t. line_sum id t.line_items)
  modify (λ t. record t { invoices = update_rows (invoice_has_id id) (set_total total) t.invoices })

abbrev pub is_draft : InvoiceStatus → Bool
is_draft draft = Bool.true
is_draft _ = Bool.false

abbrev pub item_of : Line → String → InvoiceLineItem
item_of l id = record {
  id = id;
  invoice_id = l.invoice_id;
  description = l.description;
  quantity = l.quantity *ℤ pos 1000000;
  unit_amount_cents = l.unit_amount_cents;
  amount_cents = line_total_cents l.quantity l.unit_amount_cents;
  feature_key = l.feature_key;
}

abbrev pub add_item : InvoiceLineItem → Tables → Tables
add_item l t = record t { line_items = t.line_items ++ l ∷ [] }

unfoldable pub add_to : Line → Option Invoice → Exec InvoiceLineItem
unfolding recompute_invoice_total
add_to l none = raise invoice_not_found
add_to l (some invoice) =
    if is_draft invoice.status
    then (do
      id ← new_uuid
      modify (add_item (item_of l id))
      recompute_invoice_total l.invoice_id
      pure (item_of l id))
    else raise invoice_not_mutable

-- `add_line_item`
unfoldable pub add_line_item : Line → Exec InvoiceLineItem
unfolding add_to
add_line_item l = do invoice ← select (invoice_by_id l.invoice_id); add_to l invoice
