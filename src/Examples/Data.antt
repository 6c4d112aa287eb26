-- ===== src/Examples/Data.antt =====
-- A small database: one organization with two subscriptions, an invoice in each of two statuses,
-- and one ledger entry with its event.
use saas_billing_entitlement.Prelude.{ℕ, ◌+◌, refl, true, false, none, some, String, [], ◌∷◌, arith}
use saas_billing_entitlement.Prelude.Int.{pos}
use saas_billing_entitlement.Prelude.Text.{str_eq, str_ℕ, ◌⧺◌}
use saas_billing_entitlement.Lifecycle.{Status, active, past_due}
use saas_billing_entitlement.Db.Rows.{
  Feature, PlanFeature, Organization, Subscription, Plan, Price, LedgerEntry, invoice_paid,
  OutboxMessage, Invoice, draft, open_invoice, InvoiceLineItem, DunningCampaign, CampaignStatus,
  paused, DunningAttempt, Tables,
}
use saas_billing_entitlement.Db.Session.{Host, Session}
use saas_billing_entitlement.Ledger.Laws.{IsSound}

abbrev pub host : Host
host = record {
  uuid7 = λ n. "uuid-" ⧺ str_ℕ n;
  clock = λ n. 900000000000 + n;
  upper = λ text. text;
  isoformat = λ n. str_ℕ n ⧺ "Z";
  isoformat_utc = λ n. str_ℕ n ⧺ "+00:00";
  exception_text = λ e. "error";
  json_text = λ j. "value";
  decimal_text = λ n. "quantity";
  no_row_message = "No row was found when one was required";
  columns_hold = λ currency amount. str_eq currency "USD";
}

abbrev pub acme : Organization
acme = record { id = 1; public_id = "org-acme" }

abbrev pub subscription_row : ℕ → String → Status → Subscription
subscription_row id public_id status = record {
  id = id;
  public_id = public_id;
  organization_id = 1;
  plan_id = "plan-basic";
  status = status;
  current_period_start = 0;
  current_period_end = 1000;
  cancel_at_period_end = false;
  canceled_at = none;
  past_due_entered_at = some 1000;
  trial_end = none;
  external_subscription_id = none;
  idempotency_key = none;
  metadata = [];
  updated_at = id;
}

abbrev pub overdue : Subscription
overdue = subscription_row 11 "sub-11" past_due

abbrev pub current : Subscription
current = subscription_row 12 "sub-12" active

abbrev pub plan_row : String → Plan
plan_row id = record {
  id = id;
  product_id = "product-1";
  key = id;
  version = 1;
  entitlement_policy = [];
  billing_interval = "monthly";
  trial_days = none;
  grace_period_days = 7;
  dunning_policy = [];
  published_at = some 1;
}

abbrev pub price_row : String → String → ℕ → Price
price_row id plan cents = record {
  id = id;
  plan_id = plan;
  currency = "USD";
  unit_amount_cents = pos cents;
  pricing_model = "flat";
  metered_feature_key = none;
  external_price_id = none;
  is_active = true;
}

abbrev pub feature_row : Feature
feature_row = record {
  id = "feature-1";
  key = "api_calls";
  feature_type = "quota";
  default_limit = some (pos 100);
  reset_interval = some "monthly";
}

abbrev pub plan_feature_row : PlanFeature
plan_feature_row = record {
  id = "plan-feature-1";
  plan_id = "plan-basic";
  feature_id = "feature-1";
  limit_value = none;
  is_enabled = true;
  enforcement_mode = "hard";
}

abbrev pub payment : LedgerEntry
payment = record {
  id = 5;
  public_id = "entry-5";
  organization_id = 1;
  subscription_id = some 12;
  invoice_id = some 22;
  entry_type = invoice_paid;
  amount_cents = pos 1000;
  currency = "USD";
  quantity = none;
  reverses_entry_id = none;
  idempotency_key = "pay-1";
  correlation_id = "corr-1";
  metadata = [];
}

abbrev pub payment_event : OutboxMessage
payment_event = record {
  id = 6;
  aggregate_type = "ledger";
  aggregate_id = "entry-5";
  event_type = "ledger.entry_posted";
  payload = [];
  idempotency_key = "pay-1:ledger.entry_posted";
  partition_key = "1";
  created_at = 900;
  published_at = none;
  publish_attempts = 0;
  last_error = none;
}

abbrev pub draft_invoice : Invoice
draft_invoice = record {
  id = 21;
  public_id = "inv-21";
  organization_id = 1;
  subscription_id = some 12;
  status = draft;
  currency = "USD";
  period_start = 0;
  period_end = 1000;
  total_amount_cents = pos 500;
  external_invoice_id = none;
  idempotency_key = "inv-key-21";
  created_at = 10;
}

abbrev pub sent_invoice : Invoice
sent_invoice = record draft_invoice {
  id = 22;
  public_id = "inv-22";
  subscription_id = some 11;
  status = open_invoice;
  total_amount_cents = pos 1000;
  external_invoice_id = some "in_22";
  idempotency_key = "inv-key-22";
}

abbrev pub line_item : String → ℕ → ℕ → InvoiceLineItem
line_item id invoice cents = record {
  id = id;
  invoice_id = invoice;
  description = "seats";
  quantity = pos 1;
  unit_amount_cents = pos cents;
  amount_cents = pos cents;
  feature_key = none;
}

abbrev pub campaign_row : String → CampaignStatus → DunningCampaign
campaign_row id status = record {
  id = id;
  subscription_id = 11;
  organization_id = 1;
  status = status;
  grace_until = none;
  policy_snapshot = [];
  idempotency_key = "dunning-" ⧺ id;
  started_at = 1000;
}

abbrev pub attempt_row : String → ℕ → ℕ → DunningAttempt
attempt_row campaign attempt_no scheduled_at = record {
  id = campaign ⧺ str_ℕ attempt_no;
  campaign_id = campaign;
  attempt_no = attempt_no;
  scheduled_at = scheduled_at;
  executed_at = none;
  result = none;
  external_charge_id = none;
  idempotency_key = campaign ⧺ (":" ⧺ str_ℕ attempt_no);
}

abbrev pub tables : Tables
tables = record {
  organizations = acme ∷ [];
  subscriptions = overdue ∷ current ∷ [];
  plans = plan_row "plan-basic" ∷ plan_row "plan-pro" ∷ [];
  prices = price_row "price-1" "plan-basic" 1000 ∷ price_row "price-2" "plan-pro" 2500 ∷ [];
  products = [];
  features = feature_row ∷ [];
  plan_features = plan_feature_row ∷ [];
  ledger = payment ∷ [];
  outbox = payment_event ∷ [];
  dead_letters = [];
  invoices = draft_invoice ∷ sent_invoice ∷ [];
  line_items = line_item "line-1" 21 500 ∷ line_item "line-2" 22 1000 ∷ [];
  usage_events = [];
  usage_aggregates = [];
  campaigns = campaign_row "c1" paused ∷ [];
  attempts = attempt_row "c1" 1 2000 ∷ attempt_row "c1" 2 3000 ∷ attempt_row "c1" 3 4000 ∷ [];
  webhooks = [];
  runs = [];
  discrepancies = [];
}

abbrev pub session : Session
session = record {
  host = host;
  tables = tables;
  committed = tables;
  transaction_time = 5000;
  next_id = 100;
  uuids = 0;
  readings = 0;
}

pub session-IsSound : IsSound session.tables
session-IsSound = record { unique = λ key. ground arith; announced = (refl, tt) }
