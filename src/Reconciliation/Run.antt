-- ===== src/Reconciliation/Run.antt =====
-- `run_reconciliation` and `_enqueue_run_events` of src/billing_platform/services/reconciliation.py. What
-- the payment provider answers is an argument.
use saas_billing_entitlement.Prelude.{
  ℕ, ◌+◌, leb, Bool, false, Option, none, some, String, List, [], ◌∷◌, ◌++◌, map, length, find_row,
  update_rows, where_rows,
}
use saas_billing_entitlement.Prelude.Int.{ℤ, pos, abs}
use saas_billing_entitlement.Prelude.Text.{str_eq, ◌⧺◌}
use saas_billing_entitlement.Db.Json.{Json, int, str, obj, Dict, to_fields}
use saas_billing_entitlement.Db.Rows.{
  Tables, Discrepancy, ReconciliationRun, run_pending, run_completed, run_failed,
}
use saas_billing_entitlement.Db.Session.{
  Error, Result, ok, err, Exec, pure, raise, select, modify, new_uuid, now_utc, ◌>>=◌, ◌>>◌,
}
use saas_billing_entitlement.Outbox.{Fact, enqueue_outbox}
use saas_billing_entitlement.Reconciliation.Compare.{
  Index, load_platform_invoice_index, detect_discrepancies,
}
use saas_billing_entitlement.Reconciliation.Totals.{detect_ledger_invoice_discrepancies}

-- `should_alert_recon_mismatch`
unfoldable pub should_alert_recon_mismatch : ℤ → ℕ → Bool
should_alert_recon_mismatch delta limit = leb limit (abs delta)

abbrev pub run_has_key : String → ReconciliationRun → Bool
run_has_key key r = str_eq r.idempotency_key key

-- `get_run_by_idempotency_key`
abbrev pub run_by_key : String → Tables → Option ReconciliationRun
run_by_key key t = find_row (run_has_key key) t.runs

abbrev pub run_has_id : String → ReconciliationRun → Bool
run_has_id id r = str_eq r.id id

abbrev save_run : ReconciliationRun → Tables → Tables
save_run r t = record t { runs = update_rows (run_has_id r.id) (λ _. r) t.runs }

-- The sum of the absolute differences, where there is one.
abbrev pub delta_size : Discrepancy → ℕ
delta_size d = elim d.delta_cents [ none ↦ 0 | some delta ↦ abs delta ]

unfoldable pub total_delta : List Discrepancy → ℕ
total_delta [] = 0
total_delta (d ∷ rest) = delta_size d + total_delta rest

abbrev is_material : ℕ → Discrepancy → Bool
is_material limit d = elim d.delta_cents [
  | none ↦ false
  | some delta ↦ should_alert_recon_mismatch delta limit
]

unfoldable pub material : ℕ → List Discrepancy → List Discrepancy
material limit = where_rows (is_material limit)

abbrev count_json : ℕ → Json
count_json n = int (pos n)

unfoldable pub run_stats : List Dict → Index → List Discrepancy → List Discrepancy → Dict
run_stats invoices index all from_ledger =
    ("stripe_invoice_count", count_json (length invoices))
    ∷ ("platform_invoice_count", count_json (length index))
    ∷ ("discrepancy_count", count_json (length all))
    ∷ ("ledger_invoice_discrepancy_count", count_json (length from_ledger))
    ∷ ("total_delta_cents", count_json (total_delta all))
    ∷ []

pub summary : ReconciliationRun → Dict
summary r =
    ("run_id", str r.id) ∷ ("run_type", str r.run_type) ∷ ("stats", obj (to_fields r.stats)) ∷ []

unfoldable pub completed_fact : ReconciliationRun → Fact
completed_fact r = record {
  aggregate_type = "reconciliation";
  aggregate_id = r.id;
  event_type = "reconciliation.completed";
  payload = summary r ++ ("organization_id", count_json 0) ∷ [];
  idempotency_key = "reconciliation:" ⧺ (r.id ⧺ ":completed");
  partition_key = r.id;
}

unfoldable pub mismatch_fact : ReconciliationRun → ℕ → ℕ → Fact
mismatch_fact r count limit = record {
  aggregate_type = "reconciliation";
  aggregate_id = r.id;
  event_type = "reconciliation.mismatch";
  payload =
      summary r
      ++ ("organization_id", count_json 0)
        ∷ ("material_discrepancy_count", count_json count)
        ∷ ("alert_threshold_cents", count_json limit)
        ∷ [];
  idempotency_key = "reconciliation:" ⧺ (r.id ⧺ ":mismatch");
  partition_key = r.id;
}

unfoldable pub alert_unless_empty : ReconciliationRun → ℕ → List Discrepancy → Exec (Unit {0})
alert_unless_empty r limit [] = pure tt
alert_unless_empty r limit (d ∷ rest) = enqueue_outbox (mismatch_fact r (length (d ∷ rest)) limit)

-- `_enqueue_run_events`; the number is `reconciliation_alert_amount_cents` of the settings.
unfoldable pub enqueue_run_events : ReconciliationRun → ℕ → List Discrepancy → Exec (Unit {0})
unfolding alert_unless_empty
enqueue_run_events r limit payloads = do
  enqueue_outbox (completed_fact r)
  alert_unless_empty r limit (material limit payloads)

abbrev pub finished : ReconciliationRun → Dict → ℕ → ReconciliationRun
finished r stats now = record r { status = run_completed; stats = stats; completed_at = some now }

-- The body of the `try`, once the provider has answered.
unfoldable pub compare_and_store : ReconciliationRun → ℕ → List Dict → Exec ReconciliationRun
compare_and_store r limit invoices = do
  index ← select load_platform_invoice_index
  let from_stripe = detect_discrepancies invoices index
  from_ledger ← select detect_ledger_invoice_discrepancies
  let payloads = from_stripe ++ from_ledger
  modify (λ t. record t {
    discrepancies = t.discrepancies ++ map (λ (d : Discrepancy). (r.id, d)) payloads;
  })
  now ← now_utc
  let done = finished r (run_stats invoices index payloads from_ledger) now
  modify (save_run done)
  enqueue_run_events done limit payloads
  pure done

unfoldable pub try_run : ReconciliationRun → ℕ → Result (List Dict) → Exec ReconciliationRun
try_run r limit (err e) = raise e
try_run r limit (ok invoices) = compare_and_store r limit invoices

-- The `except`: the run is marked as failed, and the exception goes on.
unfoldable pub mark_failed : ReconciliationRun → Error → Exec ReconciliationRun
mark_failed r e = do
  now ← now_utc
  modify (save_run (record r { status = run_failed; completed_at = some now }))
  raise e

abbrev handle : {A : Type 0} → Result A → (Error → Exec A) → Exec A
handle (ok a) handler s = (ok a, s)
handle (err e) handler s = handler e s

abbrev pub catch : {A : Type 0} → Exec A → (Error → Exec A) → Exec A
catch m handler s = let (r, s') = m s in handle r handler s'

unfoldable pub new_run : String → String → String → ReconciliationRun
new_run id run_type key = record {
  id = id;
  run_type = run_type;
  status = run_pending;
  idempotency_key = key;
  stats = [];
  completed_at = none;
}

unfoldable pub run_unless :
    String → String → ℕ → Result (List Dict) → Option ReconciliationRun → Exec ReconciliationRun
run_unless run_type key limit answer (some existing) = pure existing
run_unless run_type key limit answer none = do
  id ← new_uuid
  let r = new_run id run_type key
  modify (λ t. record t { runs = t.runs ++ r ∷ [] })
  catch (try_run r limit answer) (mark_failed r)

-- `run_reconciliation`
unfoldable pub run_reconciliation :
    String → String → ℕ → Result (List Dict) → Exec ReconciliationRun
run_reconciliation run_type key limit answer = do
  existing ← select (run_by_key key)
  run_unless run_type key limit answer existing
