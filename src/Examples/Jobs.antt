-- ===== src/Examples/Jobs.antt =====
-- The theorems on the grace job, dunning and reconciliation, at the example database.
use saas_billing_entitlement.Prelude.{
  if◌then◌else◌, Bool-cases, inl, inr, subst, ◌+◌, ◌≤◌, ◌≡◌, refl, ◌↔◌, true, some, String, List,
  [], ◌∷◌, ◌++◌, All, arith,
}
use saas_billing_entitlement.Prelude.Int.{pos}
use saas_billing_entitlement.Prelude.Text.{str_eq, eq_iff, str_ℕ}
use saas_billing_entitlement.Db.Json.{int, str, Dict}
use saas_billing_entitlement.Db.Rows.{DunningCampaign, running}
use saas_billing_entitlement.Db.Session.{Session, ok}
use saas_billing_entitlement.Grace.{joined, candidates, enforce_grace_expiry}
use saas_billing_entitlement.Grace.Laws.{Swept, due, report, enforce_grace_expiry-Swept}
use saas_billing_entitlement.Dunning.Campaigns.{
  Start, start_campaign, pause_campaign, resume_campaign,
}
use saas_billing_entitlement.Dunning.Attempts.{Provider, process_due_attempts}
use saas_billing_entitlement.Dunning.Laws.{OneActive, pause_resume-OneActive}
use saas_billing_entitlement.Dunning.Starting.{start_campaign-OneActive}
use saas_billing_entitlement.Dunning.Execution.{process_due_attempts-OneActive}
use saas_billing_entitlement.Reconciliation.Compare.{
  load_platform_invoice_index, detect_discrepancies,
}
use saas_billing_entitlement.Reconciliation.Run.{run_reconciliation}
use saas_billing_entitlement.Reconciliation.Laws.{
  Agrees, IsSeen, stripe_ids, detect_discrepancies-empty_iff,
}
use saas_billing_entitlement.Reconciliation.Frame.{business, run_reconciliation-business}
use saas_billing_entitlement.Examples.Data.{session, session-IsSound, tables, campaign_row}

enforce_grace_expiry-Swept_example :
    let rows = due 900000000000 (joined session.tables (candidates session.tables.subscriptions)) in
    let (r, s') = enforce_grace_expiry 900000000000 session in
    (r ≡ ok (report rows)) × Swept rows session.tables s'.tables
enforce_grace_expiry-Swept_example =
    enforce_grace_expiry-Swept 900000000000 session session-IsSound
      (("org-acme", refl), (("org-acme", refl), tt)) (refl, (refl, tt))

-- Campaigns.
abbrev start : Start
start = record {
  subscription_id = 12;
  organization_id = 1;
  idempotency_key = "start-12";
  started_at = some 6000;
}

-- Another transaction starts a campaign of the same subscription.
abbrev rival : DunningCampaign
rival = record (campaign_row "c9" running) { subscription_id = 12 }

one_id :
    (id : String) → (if str_eq "c1" id then 1 else 0) + ((if str_eq "c9" id then 1 else 0) + 0) ≤ 1
one_id id = elim (Bool-cases (str_eq "c1" id)) [
  | inl e ↦
      subst (λ i. (if str_eq "c1" i then 1 else 0) + ((if str_eq "c9" i then 1 else 0) + 0) ≤ 1)
        ((eq_iff "c1" id).0 e) (omega arith)
  | inr e ↦ rw e (ground arith)
]

rival-OneActive : OneActive (session.tables.campaigns ++ rival ∷ [])
rival-OneActive = (λ sub. ground arith, one_id)

session-OneActive : OneActive session.tables.campaigns
session-OneActive = (λ sub. ground arith, λ id. ground arith)

start_campaign-OneActive_example :
    OneActive (start_campaign true (rival ∷ []) start session).1.tables.campaigns
unfolding str_ℕ
start_campaign-OneActive_example =
    start_campaign-OneActive (rival ∷ []) start session rival-OneActive refl

pause_resume-OneActive_example :
    OneActive (pause_campaign "c1" 1 "key-7" session).1.tables.campaigns
    × OneActive (resume_campaign "c1" 1 "key-7" session).1.tables.campaigns
pause_resume-OneActive_example = pause_resume-OneActive "c1" 1 "key-7" session session-OneActive

abbrev running_session : Session
running_session = record session {
  tables = record tables { campaigns = campaign_row "c1" running ∷ [] };
}

-- Every retry is paid.
abbrev provider : Provider
provider attempt_id invoice_id = ok (("status", str "paid") ∷ ("latest_charge", str "ch_1") ∷ [])

process_due_attempts-OneActive_example :
    let t = (process_due_attempts true provider 5000 running_session).1.tables in
    (t.ledger ≡ running_session.tables.ledger)
    × (t.invoices ≡ running_session.tables.invoices)
    × (t.subscriptions ≡ running_session.tables.subscriptions)
    × OneActive t.campaigns
process_due_attempts-OneActive_example =
    process_due_attempts-OneActive true provider 5000 running_session
      (λ sub. ground arith, λ id. ground arith)

-- Reconciliation.
abbrev remote : List Dict
remote =
    (("id", str "in_22") ∷ ("amount_due", int (pos 1000)) ∷ ("status", str "open") ∷ [])
    ∷ (("id", str "in_99") ∷ ("amount_due", int (pos 5)) ∷ ("status", str "paid") ∷ [])
    ∷ []

detect_discrepancies-empty_iff_example :
    let index = load_platform_invoice_index tables in
    (detect_discrepancies remote index ≡ [])
    ↔ (All (Agrees index) remote × All (IsSeen (stripe_ids remote)) index)
detect_discrepancies-empty_iff_example =
    detect_discrepancies-empty_iff remote (load_platform_invoice_index tables)

run_reconciliation-business_example :
    business (run_reconciliation "daily" "run-1" 100 (ok remote) session).1.tables ≡ business tables
run_reconciliation-business_example =
    run_reconciliation-business "daily" "run-1" 100 (ok remote) session
