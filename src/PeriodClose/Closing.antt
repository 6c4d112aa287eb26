-- ===== src/PeriodClose/Closing.antt =====
-- Closing a period, from its usage to its charge: src/billing_platform/services/period_close.py.
use saas_billing_entitlement.Prelude.{
  ℕ, ◌+◌, ◌≡◌, refl, sym, ◌∙◌, true, none, some, String, [], arith, find_row-append, All-append,
}
use saas_billing_entitlement.Prelude.Int.{ℤ, pos, ◌+ℤ◌, int_laws}
use saas_billing_entitlement.Prelude.Text.{◌⧺◌}
use saas_billing_entitlement.Db.Rows.{Subscription, Tables}
use saas_billing_entitlement.Db.Session.{Session, ok}
use saas_billing_entitlement.Ledger.{org_public_id, entry_by_key}
use saas_billing_entitlement.Ledger.Laws.{IsSound}
use saas_billing_entitlement.Invoices.{
  has_owner, invoice_by_key, invoice_by_id, invoice_has_id, line_sum, add_invoice,
}
use saas_billing_entitlement.Invoices.Laws.{new_draft, create-alone}
use saas_billing_entitlement.Invoices.Totals.{HasTotals}
use saas_billing_entitlement.Subscriptions.{newest_of, get_primary_subscription}
use saas_billing_entitlement.Subscriptions.Laws.{newest_of-any}
use saas_billing_entitlement.PeriodClose.{
  Period, PeriodCloseResult, load_metered_prices, snapshot_usage_by_feature, period_draft,
  close_unless, close_billing_period,
}
use saas_billing_entitlement.PeriodClose.Laws.{period_charges}
use saas_billing_entitlement.PeriodClose.Charging.{Closed, Closed-from, fill_invoice-Closed}

zero_add : (a : ℤ) → pos 0 +ℤ a ≡ a
zero_add a = omega int_laws

-- What the usage of the period costs under the plan of the subscription.
abbrev pub usage_cost : Period → Subscription → Tables → ℤ
usage_cost c x t =
    period_charges (load_metered_prices x.plan_id t.prices [])
      (snapshot_usage_by_feature c.organization_id c.period_start c.period_end t)

-- The next invoice number is not in use.
abbrev pub IsFresh : ℕ → Tables → Type 0
IsFresh id t = (invoice_by_id id t ≡ none) × (line_sum id t.line_items ≡ pos 0)

-- Closing a period of an organization with a subscription opens an invoice whose total is what the
-- usage of the period costs under the plan's metered prices, charges that amount in the ledger, and
-- enqueues the event. This is for a key that no invoice and no ledger entry has, no other transaction
-- at work, a number of the new invoice that is not in use, a known organization, invoices that have
-- the sum of their lines as their total, and a ledger without a key twice and with every entry's event
-- in the outbox; the last two hold again afterwards.
pub close_billing_period-Closed :
    (c : Period) (x : Subscription) (s : Session) (org : String)
    → invoice_by_key c.idempotency_key s.tables ≡ none
    → newest_of c.organization_id s.tables.subscriptions ≡ some x
    → IsFresh s.next_id s.tables
    → HasTotals s.tables
    → IsSound s.tables
    → org_public_id c.organization_id s.tables ≡ some org
    → entry_by_key (c.idempotency_key ⧺ ":usage_charge") s.tables ≡ none
    → let (result, s') = close_billing_period [] c s in
      (r : PeriodCloseResult) × (result ≡ ok r)
      × Closed c (usage_cost c x s.tables) s.tables r s'.tables
unfolding close_billing_period close_unless get_primary_subscription
close_billing_period-Closed c x s org new primary free h sound known fresh =
    let prices = load_metered_prices x.plan_id s.tables.prices [] in
    let usage = snapshot_usage_by_feature c.organization_id c.period_start c.period_end s.tables in
    let cost = period_charges prices usage in
    let d = period_draft c x prices in
    let i = new_draft d s in
    let s1 : Session = record s {
      tables = add_invoice i s.tables;
      next_id = s.next_id + 1;
      uuids = s.uuids + 1;
    } in
    let itself : invoice_has_id i.id i ≡ true = ground arith in
    let there : invoice_by_id i.id s1.tables ≡ some i =
      find_row-append (invoice_has_id i.id) s.tables.invoices i free.0 ∙ rw itself refl in
    let totals : HasTotals s1.tables = All-append _ s.tables.invoices i h (sym free.1) in
    let (r, done, closed) =
      fill_invoice-Closed c x prices usage i s1 org totals there refl
        (record { unique = sound.unique; announced = sound.announced }) known fresh in
    let owned : has_owner d s.tables ≡ true =
      rw (known, newest_of-any c.organization_id s.tables.subscriptions primary) refl in
    rw (new, primary, create-alone d s new owned, done)
      (
        r,
        refl,
        Closed-from c (pos 0 +ℤ cost) cost s.tables s1.tables r _ refl (zero_add cost) closed,
      )
