-- ===== src/Db/Rows.antt =====
-- The tables and their rows, from src/billing_platform/domain/models. Instants are microseconds since
-- the epoch; a UUID is its canonical text; a NUMERIC(18, 6) quantity is counted in millionths. A status
-- column holds the value of its enumeration.
use saas_billing_entitlement.Prelude.{ℕ, Bool, Option, String, List}
use saas_billing_entitlement.Prelude.Int.{ℤ}
use saas_billing_entitlement.Lifecycle.{Status}
use saas_billing_entitlement.Db.Json.{Dict}
pub use saas_billing_entitlement.Db.CatalogRows.{Product, Plan, Price, Feature, PlanFeature}

pub record Organization : Type 0 where
  pub id : ℕ
  pub public_id : String

pub record Subscription : Type 0 where
  pub id : ℕ
  pub public_id : String
  pub organization_id : ℕ
  pub plan_id : String
  pub status : Status
  pub current_period_start : ℕ
  pub current_period_end : ℕ
  pub cancel_at_period_end : Bool
  pub canceled_at : Option ℕ
  pub past_due_entered_at : Option ℕ
  pub trial_end : Option ℕ
  pub external_subscription_id : Option String
  pub idempotency_key : Option String
  pub metadata : Dict
  pub updated_at : ℕ

pub data EntryType : Type 0 where
  trial_grant invoice_paid usage_charge proration_debit proration_credit credit_note : EntryType
  access_revoked_marker reversal dunning_fee : EntryType

-- The enum's `value`.
abbrev pub entry_type_value : EntryType → String
entry_type_value trial_grant = "trial_grant"
entry_type_value invoice_paid = "invoice_paid"
entry_type_value usage_charge = "usage_charge"
entry_type_value proration_debit = "proration_debit"
entry_type_value proration_credit = "proration_credit"
entry_type_value credit_note = "credit_note"
entry_type_value access_revoked_marker = "access_revoked_marker"
entry_type_value reversal = "reversal"
entry_type_value dunning_fee = "dunning_fee"

pub record LedgerEntry : Type 0 where
  pub id : ℕ
  pub public_id : String
  pub organization_id : ℕ
  pub subscription_id : Option ℕ
  pub invoice_id : Option ℕ
  pub entry_type : EntryType
  pub amount_cents : ℤ
  pub currency : String
  pub quantity : Option ℤ
  pub reverses_entry_id : Option ℕ
  pub idempotency_key : String
  pub correlation_id : String
  pub metadata : Dict

pub record OutboxMessage : Type 0 where
  pub id : ℕ
  pub aggregate_type : String
  pub aggregate_id : String
  pub event_type : String
  pub payload : Dict
  pub idempotency_key : String
  pub partition_key : String
  pub created_at : ℕ
  pub published_at : Option ℕ
  pub publish_attempts : ℕ
  pub last_error : Option String

pub record OutboxDeadLetter : Type 0 where
  pub id : ℕ
  pub outbox_message_id : ℕ
  pub aggregate_type : String
  pub aggregate_id : String
  pub event_type : String
  pub payload : Dict
  pub partition_key : String
  pub publish_attempts : ℕ
  pub last_error : Option String
  pub moved_at : ℕ
  pub replayed_at : Option ℕ

pub data InvoiceStatus : Type 0 where
  draft open_invoice paid void uncollectible : InvoiceStatus

pub record Invoice : Type 0 where
  pub id : ℕ
  pub public_id : String
  pub organization_id : ℕ
  pub subscription_id : Option ℕ
  pub status : InvoiceStatus
  pub currency : String
  pub period_start : ℕ
  pub period_end : ℕ
  pub total_amount_cents : ℤ
  pub external_invoice_id : Option String
  pub idempotency_key : String
  pub created_at : ℕ

pub record InvoiceLineItem : Type 0 where
  pub id : String
  pub invoice_id : ℕ
  pub description : String
  pub quantity : ℤ
  pub unit_amount_cents : ℤ
  pub amount_cents : ℤ
  pub feature_key : Option String

pub record UsageAggregate : Type 0 where
  pub public_id : String
  pub organization_id : ℕ
  pub feature_key : String
  pub hour_start : ℕ
  pub quantity : ℤ

pub record UsageEvent : Type 0 where
  pub public_id : String
  pub organization_id : ℕ
  pub feature_key : String
  pub quantity : ℤ
  pub recorded_at : ℕ
  pub idempotency_key : String

pub data CampaignStatus : Type 0 where
  running paused completed exhausted : CampaignStatus

pub record DunningCampaign : Type 0 where
  pub id : String
  pub subscription_id : ℕ
  pub organization_id : ℕ
  pub status : CampaignStatus
  pub grace_until : Option ℕ
  pub policy_snapshot : Dict
  pub idempotency_key : String
  pub started_at : ℕ

pub data AttemptResult : Type 0 where
  succeeded failed_result skipped_result : AttemptResult

pub record DunningAttempt : Type 0 where
  pub id : String
  pub campaign_id : String
  pub attempt_no : ℕ
  pub scheduled_at : ℕ
  pub executed_at : Option ℕ
  pub result : Option AttemptResult
  pub external_charge_id : Option String
  pub idempotency_key : String

pub data WebhookStatus : Type 0 where
  received processing processed failed skipped : WebhookStatus

pub record WebhookEvent : Type 0 where
  pub id : String
  pub provider : String
  pub provider_event_id : String
  pub event_type : String
  pub payload : Dict
  pub status : WebhookStatus
  pub processing_attempts : ℕ
  pub last_error : Option String
  pub processed_at : Option ℕ

pub data RunStatus : Type 0 where
  run_pending run_completed run_failed : RunStatus

pub record ReconciliationRun : Type 0 where
  pub id : String
  pub run_type : String
  pub status : RunStatus
  pub idempotency_key : String
  pub stats : Dict
  pub completed_at : Option ℕ

pub data DiscrepancyKind : Type 0 where
  missing_in_platform missing_in_stripe amount_mismatch status_mismatch : DiscrepancyKind
  ledger_invoice_mismatch : DiscrepancyKind

-- What a comparison reports, before it is stored.
pub record Discrepancy : Type 0 where
  pub kind : DiscrepancyKind
  pub external_invoice_id : Option String
  pub expected_amount_cents : Option ℤ
  pub actual_amount_cents : Option ℤ
  pub delta_cents : Option ℤ
  pub details : Dict

pub record Tables : Type 0 where
  pub organizations : List Organization
  pub subscriptions : List Subscription
  pub plans : List Plan
  pub prices : List Price
  pub products : List Product
  pub features : List Feature
  pub plan_features : List PlanFeature
  pub ledger : List LedgerEntry
  pub outbox : List OutboxMessage
  pub dead_letters : List OutboxDeadLetter
  pub invoices : List Invoice
  pub line_items : List InvoiceLineItem
  pub usage_events : List UsageEvent
  pub usage_aggregates : List UsageAggregate
  pub campaigns : List DunningCampaign
  pub attempts : List DunningAttempt
  pub webhooks : List WebhookEvent
  pub runs : List ReconciliationRun
  pub discrepancies : List (String × Discrepancy)
