-- ===== src/PeriodClose/Charging.antt =====
-- What closing a period writes: src/billing_platform/services/period_close.py.
use saas_billing_entitlement.Prelude.{
  ◌≡◌, refl, ap, sym, subst, ◌∙◌, true, none, some, is_some, String, List, [], ◌∷◌, ◌++◌, arith,
  if◌then◌else◌, find_row, find_row-update_kept, update_rows, All-update_rows,
}
use saas_billing_entitlement.Prelude.Int.{ℤ, ◌+ℤ◌}
use saas_billing_entitlement.Prelude.Text.{◌⧺◌}
use saas_billing_entitlement.Db.Rows.{
  Subscription, Price, Invoice, draft, open_invoice, LedgerEntry, Tables,
}
use saas_billing_entitlement.Db.Session.{Session, ok}
use saas_billing_entitlement.Outbox.{is_enqueued}
use saas_billing_entitlement.Outbox.Laws.{enqueue_outbox_lem, any-outbox_after_self}
use saas_billing_entitlement.Ledger.{entry_has_key, post, org_public_id, entry_by_key}
use saas_billing_entitlement.Ledger.Laws.{
  IsSound, Written, entry_of, post-fresh_Written, post-frame,
}
use saas_billing_entitlement.Grace.Laws.{IsSound-outbox}
use saas_billing_entitlement.Invoices.{invoice_by_id, invoice_has_id, set_total}
use saas_billing_entitlement.Invoices.Totals.{HasTotals}
use saas_billing_entitlement.PeriodClose.{
  Period, PeriodCloseResult, sort_items, total_usage, period_charge, period_closed, charge_period,
  opened, fill_invoice, add_usage_lines,
}
use saas_billing_entitlement.PeriodClose.Laws.{
  period_charges, besides_invoices, add_usage_lines-Billed, sort-charges,
}

-- What a closed period leaves: an open invoice, its charge in the ledger, and the event.
pub record Closed (c : Period) (total : ℤ) (t : Tables) (r : PeriodCloseResult) (t' : Tables)
    : Type 0 where
  pub invoice : Invoice
  pub stored : invoice_by_id r.invoice_id t' ≡ some invoice
  pub is_open : invoice.status ≡ open_invoice
  pub totals : HasTotals t'
  pub billed : (invoice.total_amount_cents ≡ total) × (r.total_amount_cents ≡ total)
  pub entry : LedgerEntry
  pub written : Written (c.idempotency_key ⧺ ":usage_charge") t entry t'
  pub charged : entry.amount_cents ≡ total
  pub announced : is_enqueued (c.idempotency_key ⧺ ":usage.period_closed") t' ≡ true

charge_period-Closed :
    (c : Period) (x : Subscription) (usage : List (String × ℤ)) (i : Invoice) (s : Session)
    (org : String)
    → HasTotals s.tables
    → invoice_by_id i.id s.tables ≡ some i
    → i.status ≡ open_invoice
    → IsSound s.tables
    → org_public_id c.organization_id s.tables ≡ some org
    → entry_by_key (c.idempotency_key ⧺ ":usage_charge") s.tables ≡ none
    → (r : PeriodCloseResult) × ((charge_period c x usage i s).0 ≡ ok r)
      × Closed c i.total_amount_cents s.tables r (charge_period c x usage i s).1.tables
unfolding charge_period period_charge period_closed
charge_period-Closed c x usage i s org h there is_open sound known fresh =
    let p = period_charge c x i (total_usage usage) s.host in
    let (done, written, kept) = post-fresh_Written p s org sound fresh known in
    let s1 = (post p s).1 in
    let f = period_closed c x i usage org s.host in
    let frame = post-frame p s in
    let known1 : org_public_id c.organization_id s1.tables ≡ some org =
      ap (λ (t : Session). org_public_id c.organization_id t.tables) frame ∙ known in
    rw (done, known1, enqueue_outbox_lem)
      (
        _,
        refl,
        record {
          invoice = i;
          stored = ap (λ (t : Session). invoice_by_id i.id t.tables) frame ∙ there;
          is_open = is_open;
          totals = subst (λ (t : Session). HasTotals t.tables) (sym frame) h;
          billed = (refl, refl);
          entry = entry_of p s;
          written = record {
            sound = IsSound-outbox f s1 written.sound;
            stored = written.stored;
            appended = written.appended;
          };
          charged = refl;
          announced = any-outbox_after_self f s1;
        },
      )

-- What the ledger's soundness says does not depend on invoices.
IsSound-besides :
    (s s' : Session)
    → besides_invoices s' ≡ besides_invoices s
    → IsSound s.tables
    → IsSound s'.tables
IsSound-besides s s' frame h =
    let bare : IsSound (besides_invoices s).tables = record {
      unique = h.unique;
      announced = h.announced;
    } in
    let bare' : IsSound (besides_invoices s').tables =
      subst (λ (t : Session). IsSound t.tables) (sym frame) bare in
    record { unique = bare'.unique; announced = bare'.announced }

-- A period closed from other tables with the same ledger.
pub Closed-from :
    (c : Period) (n m : ℤ) (t u : Tables) (r : PeriodCloseResult) (t' : Tables)
    → u.ledger ≡ t.ledger
    → n ≡ m
    → Closed c n u r t'
    → Closed c m t r t'
Closed-from c n m t u r t' ledger same k = record {
  invoice = k.invoice;
  stored = k.stored;
  is_open = k.is_open;
  totals = k.totals;
  billed = (k.billed.0 ∙ same, k.billed.1 ∙ same);
  entry = k.entry;
  written = record {
    sound = k.written.sound;
    stored = k.written.stored;
    appended =
        subst
          (λ rows. t'.ledger ≡ (
            if is_some (find_row (entry_has_key (c.idempotency_key ⧺ ":usage_charge")) rows)
            then rows
            else rows ++ k.entry ∷ []))
          ledger k.written.appended;
  };
  charged = k.charged ∙ same;
  announced = k.announced;
}

pub fill_invoice-Closed :
    (c : Period) (x : Subscription) (prices : List (String × Price)) (usage : List (String × ℤ))
    (i : Invoice) (s : Session) (org : String)
    → HasTotals s.tables
    → invoice_by_id i.id s.tables ≡ some i
    → i.status ≡ draft
    → IsSound s.tables
    → org_public_id c.organization_id s.tables ≡ some org
    → entry_by_key (c.idempotency_key ⧺ ":usage_charge") s.tables ≡ none
    → (r : PeriodCloseResult) × ((fill_invoice c x prices usage i s).0 ≡ ok r)
      × Closed c
          (i.total_amount_cents +ℤ period_charges prices usage)
          s.tables
          r
          (fill_invoice c x prices usage i s).1.tables
unfolding fill_invoice
fill_invoice-Closed c x prices usage i s org h there drafted sound known fresh =
    let bill = add_usage_lines-Billed i prices (sort_items usage) s h there drafted in
    let s1 = (add_usage_lines i.id prices (sort_items usage) s).1 in
    let t : Tables = record s1.tables {
      invoices = update_rows (invoice_has_id i.id) opened s1.tables.invoices;
    } in
    let s2 : Session = record s1 { tables = t } in
    let j =
      opened (set_total (i.total_amount_cents +ℤ period_charges prices (sort_items usage)) i) in
    let itself : invoice_has_id i.id i ≡ true = ground arith in
    let found : invoice_by_id i.id t ≡ some j =
      find_row-update_kept (invoice_has_id i.id) (invoice_has_id i.id) opened s1.tables.invoices
        (λ y. refl)
      ∙ rw (bill.found, itself) refl in
    let totals : HasTotals t =
      All-update_rows _ (invoice_has_id i.id) opened s1.tables.invoices (λ y b. b) bill.totals in
    let sound1 = IsSound-besides s s1 bill.frame sound in
    let known2 : org_public_id c.organization_id t ≡ some org =
      ap (λ (r : Session). org_public_id c.organization_id r.tables) bill.frame ∙ known in
    let fresh2 : entry_by_key (c.idempotency_key ⧺ ":usage_charge") t ≡ none =
      ap (λ (r : Session). entry_by_key (c.idempotency_key ⧺ ":usage_charge") r.tables) bill.frame
      ∙ fresh in
    let (r, done, closed) =
      charge_period-Closed c x usage j s2 org totals found refl
        (record { unique = sound1.unique; announced = sound1.announced }) known2 fresh2 in
    rw (bill.done, found)
      (
        r,
        done,
        Closed-from c j.total_amount_cents (i.total_amount_cents +ℤ period_charges prices usage)
            s.tables t r _ (ap (λ (q : Session). q.tables.ledger) bill.frame)
            (ap (λ n. i.total_amount_cents +ℤ n) (sort-charges prices usage)) closed,
      )
