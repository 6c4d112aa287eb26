-- ===== src/Reconciliation/Frame.antt =====
-- Reconciliation only detects: src/billing_platform/services/reconciliation.py.
use saas_billing_entitlement.Prelude.{
  ℕ, ◌+◌, ◌≡◌, refl, some, Option-cases, inl, inr, String, List, [], ◌∷◌, ◌++◌, update_rows,
}
use saas_billing_entitlement.Db.Json.{Dict}
use saas_billing_entitlement.Db.Rows.{Tables, Discrepancy, ReconciliationRun, run_failed}
use saas_billing_entitlement.Db.Session.{Session, Result, ok, err}
use saas_billing_entitlement.Outbox.{Fact, enqueue_outbox}
use saas_billing_entitlement.Outbox.Laws.{enqueue_outbox_lem}
use saas_billing_entitlement.Reconciliation.Compare.{
  load_platform_invoice_index, detect_discrepancies,
}
use saas_billing_entitlement.Reconciliation.Totals.{detect_ledger_invoice_discrepancies}
use saas_billing_entitlement.Reconciliation.Run.{
  run_stats, catch, run_by_key, run_has_id, material, alert_unless_empty, enqueue_run_events,
  compare_and_store, try_run, mark_failed, run_unless, run_reconciliation, finished,
}

-- All tables but the runs, their discrepancies and the outbox.
abbrev pub business : Tables → Tables
business t = record t { runs = []; discrepancies = []; outbox = [] }

enqueue_outbox-business :
    (f : Fact) (s : Session) → business (enqueue_outbox f s).1.tables ≡ business s.tables
enqueue_outbox-business f s = rw enqueue_outbox_lem refl

alert-business :
    (r : ReconciliationRun) (limit : ℕ) (found : List Discrepancy) (s : Session)
    → ((alert_unless_empty r limit found s).0 ≡ ok tt)
      × (business (alert_unless_empty r limit found s).1.tables ≡ business s.tables)
unfolding alert_unless_empty
alert-business r limit [] s = (refl, refl)
alert-business r limit (d ∷ found) s = rw enqueue_outbox_lem (refl, refl)

alert-runs :
    (r : ReconciliationRun) (limit : ℕ) (found : List Discrepancy) (s : Session)
    → (alert_unless_empty r limit found s).1.tables.runs ≡ s.tables.runs
unfolding alert_unless_empty
alert-runs r limit [] s = refl
alert-runs r limit (d ∷ found) s = rw enqueue_outbox_lem refl

events-ok :
    (r : ReconciliationRun) (limit : ℕ) (found : List Discrepancy) (s : Session)
    → (enqueue_run_events r limit found s).0 ≡ ok tt
unfolding enqueue_run_events
events-ok r limit found s =
    rw enqueue_outbox_lem (alert-business r limit (material limit found) _).0

events-tables :
    (r : ReconciliationRun) (limit : ℕ) (found : List Discrepancy) (s : Session)
    → (business (enqueue_run_events r limit found s).1.tables ≡ business s.tables)
      × ((enqueue_run_events r limit found s).1.tables.runs ≡ s.tables.runs)
unfolding enqueue_run_events
events-tables r limit found s = rw enqueue_outbox_lem (
  (alert-business r limit (material limit found) _).1,
  alert-runs r limit (material limit found) _,
)

-- The run that a comparison makes.
pub done_run : ReconciliationRun → List Dict → Session → ReconciliationRun
done_run r invoices s =
    let index = load_platform_invoice_index s.tables in
    let from_ledger = detect_ledger_invoice_discrepancies s.tables in
    finished r
      (run_stats invoices index (detect_discrepancies invoices index ++ from_ledger) from_ledger)
      (s.host.clock s.readings)

compare-ok :
    (r : ReconciliationRun) (limit : ℕ) (invoices : List Dict) (s : Session)
    → (compare_and_store r limit invoices s).0 ≡ ok (done_run r invoices s)
unfolding compare_and_store done_run
compare-ok r limit invoices s = rw events-ok refl

compare-tables :
    (r : ReconciliationRun) (limit : ℕ) (invoices : List Dict) (s : Session)
    → (business (compare_and_store r limit invoices s).1.tables ≡ business s.tables)
      × ((compare_and_store r limit invoices s).1.tables.runs
          ≡ update_rows (run_has_id r.id) (λ _. done_run r invoices s) s.tables.runs)
unfolding compare_and_store done_run
compare-tables r limit invoices s = rw events-ok (events-tables _ limit _ _)

-- The run that is returned or stored at the end.
abbrev pub final_run : ReconciliationRun → Result (List Dict) → Session → ReconciliationRun
final_run r (ok invoices) s = done_run r invoices s
final_run r (err e) s = record r {
  status = run_failed;
  completed_at = some (s.host.clock s.readings);
}

abbrev pub answer_of : ReconciliationRun → Result (List Dict) → Session → Result ReconciliationRun
answer_of r (ok invoices) s = ok (done_run r invoices s)
answer_of r (err e) s = err e

attempt :
    (r : ReconciliationRun) (limit : ℕ) (answer : Result (List Dict)) (s : Session)
    → let (result, s') = catch (try_run r limit answer) (mark_failed r) s in
      (result ≡ answer_of r answer s)
      × (business s'.tables ≡ business s.tables)
      × (s'.tables.runs ≡ update_rows (run_has_id r.id) (λ _. final_run r answer s) s.tables.runs)
unfolding try_run mark_failed
attempt r limit (err e) s = (refl, refl, refl)
attempt r limit (ok invoices) s =
    let w = compare-tables r limit invoices s in rw compare-ok (refl, w.0, w.1)

-- Whatever the provider answers, a run changes no subscription, invoice, ledger entry or other business
-- row: only runs, discrepancies and outbox messages are written.
pub run_reconciliation-business :
    (run_type key : String) (limit : ℕ) (answer : Result (List Dict)) (s : Session)
    → business (run_reconciliation run_type key limit answer s).1.tables ≡ business s.tables
unfolding run_reconciliation run_unless
run_reconciliation-business run_type key limit answer s =
    elim (Option-cases (run_by_key key s.tables)) [
      | inr (r, there) ↦ rw there refl
      | inl fresh ↦ rw fresh (attempt _ limit answer _).1
    ]

-- The session in which a new run is compared.
abbrev pub started : ReconciliationRun → Session → Session
started r s = record s {
  tables = record s.tables { runs = s.tables.runs ++ r ∷ [] };
  uuids = s.uuids + 1;
}
