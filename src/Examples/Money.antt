-- ===== src/Examples/Money.antt =====
-- The theorems on the ledger, the outbox, the invoices, the subscriptions and plan changes, at the
-- example database.
use saas_billing_entitlement.Prelude.{
  ◌⊎◌, ◌++◌, ℕ, ◌≡◌, refl, ◌≢◌, true, false, none, some, String, [], ◌∷◌, arith,
}
use saas_billing_entitlement.Prelude.Int.{pos, ◌+ℤ◌}
use saas_billing_entitlement.Prelude.Text.{str_ℕ}
use saas_billing_entitlement.Lifecycle.{canceled}
use saas_billing_entitlement.Db.Json.{int, str}
use saas_billing_entitlement.Db.Rows.{Subscription, Plan, LedgerEntry, usage_charge, Invoice}
use saas_billing_entitlement.Db.Session.{Session, ok, err, integrity_error}
use saas_billing_entitlement.Outbox.{Fact, enqueue, is_enqueued}
use saas_billing_entitlement.Outbox.Laws.{HasUniqueKeys, key_count, enqueue_once}
use saas_billing_entitlement.Ledger.{Posting, post, reverse}
use saas_billing_entitlement.Ledger.Laws.{
  Written, balance, post-Written, post_again, reverse_cancels,
}
use saas_billing_entitlement.Invoices.{
  Draft, Line, has_owner, create_draft_invoice, invoice_by_id, line_total_cents, line_sum, item_of,
  set_total, add_line_item,
}
use saas_billing_entitlement.Invoices.Laws.{Created, create_draft_invoice-Created}
use saas_billing_entitlement.Invoices.Totals.{HasTotals, add_line_item-HasTotals}
use saas_billing_entitlement.Subscriptions.{
  Order, create_subscription, subscription_by_id, cancel_subscription, canceled_row, stamped,
}
use saas_billing_entitlement.Subscriptions.Laws.{cancel_subscription-now}
use saas_billing_entitlement.Subscriptions.Creation.{Stored, create_subscription-Stored}
use saas_billing_entitlement.PlanChange.{change_plan}
use saas_billing_entitlement.PlanChange.Laws.{IsChangeable, change_plan_again}
use saas_billing_entitlement.Examples.Data.{
  tables, session, session-IsSound, payment, draft_invoice, current, plan_row,
}

abbrev usage : Posting
usage = record {
  organization_id = 1;
  entry_type = usage_charge;
  amount_cents = pos 250;
  currency = "USD";
  idempotency_key = "usage-1";
  correlation_id = "corr-2";
  subscription_id = some 12;
  invoice_id = none;
  quantity = some (pos 3);
  metadata = [];
}

post-Written_example :
    (e : LedgerEntry) × ((post usage session).0 ≡ ok e)
    × Written "usage-1" session.tables e (post usage session).1.tables
post-Written_example = post-Written usage session "org-acme" session-IsSound refl

-- A retry that says something else.
abbrev retry : Posting
retry = record usage { amount_cents = pos 999 }

post_again_example :
    post retry (post usage session).1
    ≡ (ok (post-Written usage session "org-acme" session-IsSound refl).0, (post usage session).1)
post_again_example =
    post_again usage retry session (post-Written usage session "org-acme" session-IsSound refl).0
      "org-acme" session-IsSound refl (post-Written usage session "org-acme" session-IsSound refl).1
      refl

reverse_cancels_example :
    let (r, s') = reverse 5 "reversal-1" "corr-3" session in
    (e : LedgerEntry) × (r ≡ ok e)
    × (e.reverses_entry_id ≡ some 5)
    × (e.amount_cents +ℤ pos 1000 ≡ pos 0)
    × (balance s'.tables.ledger +ℤ pos 1000 ≡ balance session.tables.ledger)
    × Written "reversal-1" session.tables e s'.tables
reverse_cancels_example =
    reverse_cancels 5 "reversal-1" "corr-3" session payment "org-acme" session-IsSound refl refl
      refl

abbrev fact : Fact
fact = record {
  aggregate_type = "subscription";
  aggregate_id = "sub-12";
  event_type = "subscription.renewed";
  payload = ("organization_id", int (pos 1)) ∷ ("plan", str "basic") ∷ [];
  idempotency_key = "renewed-1";
  partition_key = "1";
}

enqueue_once_example :
    let s' = (enqueue fact session).1 in
    HasUniqueKeys s'.tables
    × (key_count "renewed-1" s'.tables ≡ 1)
    × ((key : String) → key ≢ "renewed-1" → key_count key s'.tables ≡ key_count key session.tables)
enqueue_once_example = enqueue_once fact session (λ key. ground arith)

abbrev order : Draft
order = record {
  organization_id = 1;
  currency = "usd";
  period_start = 1000;
  period_end = 2000;
  idempotency_key = "inv-key-30";
  subscription_id = some 12;
}

-- Another transaction commits an invoice under the same key.
abbrev rival : Invoice
rival = record draft_invoice { id = 40; public_id = "inv-40"; idempotency_key = "inv-key-30" }

create_draft_invoice-Created_example :
    let (result, s') = create_draft_invoice (rival ∷ []) order session in
    ((i : Invoice) × (result ≡ ok i) × Created order i s'.tables)
    ⊎ ((has_owner order session.tables ≡ false)
        × (result ≡ err integrity_error)
        × (s'.tables.invoices ≡ session.committed.invoices ++ rival ∷ []))
create_draft_invoice-Created_example = create_draft_invoice-Created (rival ∷ []) order session

abbrev line : Line
line = record {
  invoice_id = 21;
  description = "calls";
  quantity = pos 3;
  unit_amount_cents = pos 200;
  feature_key = none;
}

add_line_item-HasTotals_example :
    let (r, s') = add_line_item line session in
    (r ≡ ok (item_of line "uuid-0"))
    × HasTotals s'.tables
    × (invoice_by_id 21 s'.tables
        ≡ some (set_total (pos 500 +ℤ line_total_cents (pos 3) (pos 200)) draft_invoice))
    × ((id : ℕ) → id ≢ 21 → invoice_by_id id s'.tables ≡ invoice_by_id id session.tables)
unfolding line_sum ◌+ℤ◌ str_ℕ
add_line_item-HasTotals_example =
    add_line_item-HasTotals line session draft_invoice (refl, (refl, tt)) refl refl

cancel_subscription-now_example :
    let (r, s') = cancel_subscription current false session in
    let row = canceled_row current canceled 900000000000 in
    (r ≡ ok row)
    × (subscription_by_id 12 s'.tables ≡ some (stamped row 5000))
    × ((id : ℕ) → id ≢ 12 → subscription_by_id id s'.tables ≡ subscription_by_id id session.tables)
    × (is_enqueued "subscription:sub-12:canceled" s'.tables ≡ true)
cancel_subscription-now_example = cancel_subscription-now current session "org-acme" tt refl refl

changeable : IsChangeable current "plan-pro" "change-1" session.tables
changeable = record { not_done = refl; status_allows = refl; other_plan = λ h. cc; stored = refl }

change_plan_again_example :
    let s' = (change_plan current "immediate" "plan-pro" "change-1" session).1 in
    change_plan current "immediate" "plan-basic" "change-1" s' ≡ (ok current, s')
change_plan_again_example =
    change_plan_again current current "plan-pro" "plan-basic" "change-1" session "org-acme"
      (plan_row "plan-pro") session-IsSound changeable refl refl refl

-- A plan with a trial, and a request for it while another transaction uses the key.
abbrev trial_plan : Plan
trial_plan = record (plan_row "plan-trial") { trial_days = some (pos 14) }

abbrev trial_session : Session
trial_session = record session { tables = record tables { plans = trial_plan ∷ [] } }

abbrev request : Order
request = record {
  organization_id = 1;
  plan_id = "plan-trial";
  idempotency_key = "sub-key-1";
  metadata = [];
}

abbrev faster : Subscription
faster = record current { id = 50; idempotency_key = some "sub-key-1" }

create_subscription-Stored_example :
    let (r, s') = create_subscription (faster ∷ []) request trial_session in
    Stored "sub-key-1" r s'.tables
create_subscription-Stored_example =
    create_subscription-Stored (faster ∷ []) request trial_session trial_plan "org-acme" refl refl
      refl
