-- ===== src/Invoices/Totals.antt =====
-- Totals of invoices and their line items: src/billing_platform/services/invoices.py.
use saas_billing_entitlement.Prelude.{
  ℕ, ◌+◌, ◌==◌, ◌≡◌, refl, ◌≢◌, ap, sym, ◌∙◌, true, false, Bool-cases, inl, inr, some, some_inj,
  List, [], ◌∷◌, ◌++◌, arith, if◌then◌else◌, All, find_row, update_rows, ==_iff,
}
use saas_billing_entitlement.Prelude.Int.{ℤ, pos, ◌+ℤ◌, int_laws}
use saas_billing_entitlement.Db.Rows.{Invoice, InvoiceLineItem, draft, Tables}
use saas_billing_entitlement.Db.Session.{Session, ok, err, invoice_not_mutable}
use saas_billing_entitlement.Invoices.{
  Line, line_total_cents, invoice_by_id, invoice_has_id, line_sum, set_total,
  recompute_invoice_total, is_draft, item_of, add_to, add_line_item,
}

abbrev pub IsBalancedAgainst : List InvoiceLineItem → Invoice → Type 0
IsBalancedAgainst lines i = i.total_amount_cents ≡ line_sum i.id lines

-- Every invoice's total is the sum of its line items.
abbrev pub HasTotals : Tables → Type 0
HasTotals t = All (IsBalancedAgainst t.line_items) t.invoices

line_sum-append :
    (id : ℕ) (xs : List InvoiceLineItem) (l : InvoiceLineItem)
    → line_sum id (xs ++ l ∷ [])
      ≡ line_sum id xs +ℤ (if l.invoice_id == id then l.amount_cents else pos 0)
unfolding line_sum
line_sum-append id [] l = omega int_laws
line_sum-append id (x ∷ xs) l = rw (line_sum-append id xs l) (omega int_laws)

==_flip : (a b : ℕ) → a == b ≡ false → b == a ≡ false
==_flip a b h = ground arith

-- Setting the total of the invoices under an id to their new sum balances all of them.
update-balances :
    (lines : List InvoiceLineItem) (l : InvoiceLineItem) (invoices : List Invoice)
    → All (IsBalancedAgainst lines) invoices
    → All (IsBalancedAgainst (lines ++ l ∷ [])) (
        update_rows
          (invoice_has_id l.invoice_id)
          (set_total (line_sum l.invoice_id (lines ++ l ∷ [])))
          invoices)
update-balances lines l [] h = tt
update-balances lines l (i ∷ invoices) h = (
  elim (Bool-cases (i.id == l.invoice_id)) [
    | inl same ↦
        rw same
          (ap (λ (n : ℕ). line_sum n (lines ++ l ∷ [])) (sym ((==_iff i.id l.invoice_id).0 same)))
    | inr other ↦ rw other (
        rw (line_sum-append i.id lines l)
          (rw (==_flip i.id l.invoice_id other) (h.0 ∙ omega int_laws)))
  ],
  update-balances lines l invoices h.1,
)

find-update :
    (id : ℕ) (total : ℤ) (invoices : List Invoice) (i : Invoice)
    → find_row (invoice_has_id id) invoices ≡ some i
    → find_row (invoice_has_id id) (update_rows (invoice_has_id id) (set_total total) invoices)
      ≡ some (set_total total i)
find-update id total [] i h = cc
find-update id total (x ∷ xs) i h = ground (arith, find-update id total xs i)

find-update_ne :
    (id other : ℕ) (total : ℤ) (invoices : List Invoice)
    → other ≢ id
    → find_row (invoice_has_id other) (update_rows (invoice_has_id id) (set_total total) invoices)
      ≡ find_row (invoice_has_id other) invoices
find-update_ne id other total [] ne = refl
find-update_ne id other total (x ∷ xs) ne = ground (arith, find-update_ne id other total xs ne)

-- The tables after a line is added and the total recomputed.
abbrev pub with_line : InvoiceLineItem → Tables → Tables
with_line item t = record t {
  line_items = t.line_items ++ item ∷ [];
  invoices =
      update_rows (invoice_has_id item.invoice_id)
        (set_total (line_sum item.invoice_id (t.line_items ++ item ∷ []))) t.invoices;
}

pub add_line_item-draft :
    (l : Line) (s : Session) (i : Invoice)
    → invoice_by_id l.invoice_id s.tables ≡ some i
    → i.status ≡ draft
    → let item = item_of l (s.host.uuid7 s.uuids) in
      add_line_item l s
      ≡ (ok item, record s { tables = with_line item s.tables; uuids = s.uuids + 1 })
unfolding add_line_item add_to recompute_invoice_total
add_line_item-draft l s i found drafted =
    let test : is_draft i.status ≡ true = ground arith in rw found (rw test refl)

found-IsBalanced :
    (lines : List InvoiceLineItem) (id : ℕ) (invoices : List Invoice) (i : Invoice)
    → All (IsBalancedAgainst lines) invoices
    → find_row (invoice_has_id id) invoices ≡ some i
    → i.total_amount_cents ≡ line_sum id lines
found-IsBalanced lines id [] i h found = cc
found-IsBalanced lines id (x ∷ xs) i h found = elim (Bool-cases (x.id == id)) [
  | inl same ↦
      let e : x ≡ i = some_inj (rw same at found) in
      rw (← e) (h.0 ∙ ap (λ (n : ℕ). line_sum n lines) ((==_iff x.id id).0 same))
  | inr other ↦ found-IsBalanced lines id xs i h.1 (rw other at found)
]

new_total :
    (l : Line) (s : Session) (i : Invoice)
    → HasTotals s.tables
    → invoice_by_id l.invoice_id s.tables ≡ some i
    → line_sum l.invoice_id (s.tables.line_items ++ item_of l (s.host.uuid7 s.uuids) ∷ [])
      ≡ i.total_amount_cents +ℤ line_total_cents l.quantity l.unit_amount_cents
new_total l s i h found =
    line_sum-append l.invoice_id s.tables.line_items (item_of l (s.host.uuid7 s.uuids))
    ∙ rw
        (
          found-IsBalanced s.tables.line_items l.invoice_id s.tables.invoices i h found,
          (==_iff l.invoice_id l.invoice_id).1 refl,
        )
        refl

-- Adding a line to a draft invoice succeeds with the product of quantity and price; the invoice's total
-- grows by that amount, no other invoice changes, and every invoice still has the sum of its lines as
-- its total.
pub add_line_item-HasTotals :
    (l : Line) (s : Session) (i : Invoice)
    → HasTotals s.tables
    → invoice_by_id l.invoice_id s.tables ≡ some i
    → i.status ≡ draft
    → let amount = line_total_cents l.quantity l.unit_amount_cents in
      let (r, s') = add_line_item l s in
      (r ≡ ok (item_of l (s.host.uuid7 s.uuids)))
      × HasTotals s'.tables
      × (invoice_by_id l.invoice_id s'.tables ≡ some (set_total (i.total_amount_cents +ℤ amount) i))
      × ((id : ℕ) → id ≢ l.invoice_id → invoice_by_id id s'.tables ≡ invoice_by_id id s.tables)
add_line_item-HasTotals l s i h found drafted =
    let item = item_of l (s.host.uuid7 s.uuids) in
    rw (add_line_item-draft l s i found drafted) (
      refl,
      update-balances s.tables.line_items item s.tables.invoices h,
      find-update l.invoice_id (line_sum l.invoice_id (s.tables.line_items ++ item ∷ []))
            s.tables.invoices i found
          ∙ ap (λ (total : ℤ). some (set_total total i)) (new_total l s i h found),
      λ id ne.
          find-update_ne l.invoice_id id (line_sum l.invoice_id (s.tables.line_items ++ item ∷ []))
            s.tables.invoices ne,
    )

-- An invoice that has left the draft status takes no more lines: the call raises and changes nothing.
pub add_line_item-immutable :
    (l : Line) (s : Session) (i : Invoice)
    → invoice_by_id l.invoice_id s.tables ≡ some i
    → i.status ≢ draft
    → add_line_item l s ≡ (err invoice_not_mutable, s)
unfolding add_line_item add_to
add_line_item-immutable l s i found issued = rw found (ground arith)
