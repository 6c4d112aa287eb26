-- ===== src/Webhooks/Handlers.antt =====
-- The handlers of the events: `_dispatch_event` of src/billing_platform/services/webhook_processor.py
-- and what it calls.
use saas_billing_entitlement.Prelude.{
  ℕ, Bool, true, false, ◌||◌, is_some, Option, none, some, String, List, [], ◌∷◌, if◌then◌else◌,
  find_row,
}
use saas_billing_entitlement.Prelude.Int.{pos}
use saas_billing_entitlement.Prelude.Text.{str_eq, str_ℕ, ◌⧺◌}
use saas_billing_entitlement.Lifecycle.{Status, active, past_due, transition}
use saas_billing_entitlement.Entitlements.Decide.{compute_grace_until}
use saas_billing_entitlement.Db.Json.{
  Json, null, bool, int, str, obj, Fields, Dict, get, get_field, as_int, as_str, or_else,
  str_or_null,
}
use saas_billing_entitlement.Db.Rows.{
  Subscription, Plan, invoice_paid, LedgerEntry, DunningCampaign, WebhookEvent, Tables,
}
use saas_billing_entitlement.Db.Session.{
  Host, webhook_processing, data_error, Exec, pure, raise, gets, select, or_raise, scalar_one,
  now_utc, ◌>>=◌, ◌>>◌,
}
use saas_billing_entitlement.Outbox.{Fact, enqueue_outbox}
use saas_billing_entitlement.Ledger.{Posting, post, org_public_id, entry_by_key}
use saas_billing_entitlement.Subscriptions.{plan_by_id, save, illegal_text}
use saas_billing_entitlement.Dunning.Campaigns.{Start, start_campaign}

-- `_extract_data_object`
unfoldable pub object_of : Option Json → Exec Fields
object_of (some (obj fields)) = pure fields
object_of _ = raise (webhook_processing "payload missing data.object")

unfoldable pub data_of : Option Json → Exec Fields
unfolding object_of
data_of (some (obj fields)) = object_of (get_field "object" fields)
data_of _ = raise (webhook_processing "payload missing data object")

unfoldable pub extract_data_object : Dict → Exec Fields
unfolding data_of
extract_data_object payload = data_of (get "data" payload)

-- A value that is true and a text.
abbrev pub nonempty_text : Option Json → Option String
nonempty_text (some (str s)) = if str_eq s "" then none else some s
nonempty_text _ = none

abbrev pub has_external_id : String → Subscription → Bool
has_external_id id x = elim x.external_subscription_id [ none ↦ false | some s ↦ str_eq s id ]

-- `_find_subscription_by_external_id`
abbrev pub subscription_by_external_id : String → Tables → Option Subscription
subscription_by_external_id id t = find_row (has_external_id id) t.subscriptions

unfoldable pub find_subscription : String → Exec Subscription
find_subscription id = do
  found ← select (subscription_by_external_id id)
  or_raise found (webhook_processing ("subscription not found for external id " ⧺ id))

-- `_transition_subscription`: the row with its new status, and the time at which it became overdue.
abbrev pub entered : Subscription → Status → ℕ → Subscription
entered x past_due now = record x { status = past_due; past_due_entered_at = some now }
entered x active now = record x { status = active; past_due_entered_at = none }
entered x status now = record x { status = status }

unfoldable pub transition_subscription : Subscription → Status → Exec Subscription
transition_subscription x new_status = do
  status ←
      or_raise (transition x.status new_status)
        (webhook_processing (illegal_text x.status new_status))
  now ← now_utc
  save (entered x status now)
  pure (entered x status now)

abbrev pub idem_base : WebhookEvent → String
idem_base w = "webhook:" ⧺ w.id

unfoldable pub activated_fact : WebhookEvent → Subscription → String → Fact
activated_fact w x org = record {
  aggregate_type = "subscription";
  aggregate_id = x.public_id;
  event_type = "subscription.activated";
  payload =
      ("subscription_public_id", str x.public_id)
      ∷ ("organization_public_id", str org)
      ∷ ("webhook_id", str w.id)
      ∷ [];
  idempotency_key = idem_base w ⧺ ":subscription.activated";
  partition_key = str_ℕ x.organization_id;
}

-- `str(invoice.get("id", ""))`
abbrev pub id_text : Host → Option Json → String
id_text host none = ""
id_text host (some (str s)) = s
id_text host (some j) = host.json_text j

-- `currency_raw.upper() if isinstance(currency_raw, str) else "USD"`
abbrev pub currency_of : Host → Option Json → String
currency_of host (some (str s)) = host.upper s
currency_of host _ = "USD"

unfoldable pub payment : WebhookEvent → Subscription → Host → Fields → Posting
payment w x host invoice = record {
  organization_id = x.organization_id;
  entry_type = invoice_paid;
  amount_cents = or_else (as_int (get_field "amount_paid" invoice)) (pos 0);
  currency = currency_of host (get_field "currency" invoice);
  idempotency_key = idem_base w ⧺ ":ledger:invoice_paid";
  correlation_id = w.id;
  subscription_id = some x.id;
  invoice_id = none;
  quantity = none;
  metadata =
      ("invoice_external_id", str (id_text host (get_field "id" invoice)))
      ∷ ("subscription_public_id", str x.public_id)
      ∷ ("webhook_id", str w.id)
      ∷ [];
}

-- `post` with what the payload holds: the flush of a new row fails where a column cannot hold its value.
unfoldable pub post_held : Bool → Posting → Exec (Unit {0})
post_held false p = raise data_error
post_held true p = do post p; pure tt

unfoldable pub post_payment : Posting → Option LedgerEntry → Exec (Unit {0})
unfolding post_held
post_payment p existing = do
  host ← gets (λ s. s.host)
  post_held (is_some existing || host.columns_hold (host.upper p.currency) p.amount_cents) p

-- `_handle_invoice_paid` on the loaded row. The answer is a set of organizations, as a list.
unfoldable pub activate : WebhookEvent → Fields → Subscription → Exec (List ℕ)
unfolding post_payment
activate w invoice x = do
  y ← transition_subscription x active
  found ← select (org_public_id y.organization_id)
  org ← scalar_one found
  enqueue_outbox (activated_fact w y org)
  host ← gets (λ s. s.host)
  existing ← select (entry_by_key (idem_base w ⧺ ":ledger:invoice_paid"))
  post_payment (payment w y host invoice) existing
  pure (y.organization_id ∷ [])

-- The start of both handlers: the invoice of the payload and the row that it names.
unfoldable pub load_subscription : String → Fields → Exec Subscription
unfolding find_subscription
load_subscription event_type invoice = do
  id ←
      or_raise (nonempty_text (get_field "subscription" invoice))
        (webhook_processing (event_type ⧺ " missing subscription id"))
  find_subscription id

unfoldable pub handle_invoice_paid : WebhookEvent → Exec (List ℕ)
unfolding extract_data_object load_subscription activate
handle_invoice_paid w = do
  invoice ← extract_data_object w.payload
  x ← load_subscription "invoice.paid" invoice
  activate w invoice x

-- `_load_plan`
unfoldable pub load_plan : String → Exec Plan
load_plan id = do
  found ← select (plan_by_id id)
  or_raise found (webhook_processing ("plan " ⧺ (id ⧺ " not found")))

-- A value that `isinstance(v, int)` lets through, and one that `isinstance(v, str)` does.
abbrev int_or_null : Option Json → Json
int_or_null (some (int n)) = int n
int_or_null (some (bool b)) = bool b
int_or_null _ = null

unfoldable pub payment_failed_fact : WebhookEvent → Subscription → String → Fields → Fact
payment_failed_fact w x org invoice = record {
  aggregate_type = "subscription";
  aggregate_id = x.public_id;
  event_type = "subscription.payment_failed";
  payload =
      ("subscription_public_id", str x.public_id)
      ∷ ("organization_public_id", str org)
      ∷ ("webhook_id", str w.id)
      ∷ ("attempt_count", int_or_null (get_field "attempt_count" invoice))
      ∷ ("next_retry", str_or_null (as_str (get_field "next_payment_attempt" invoice)))
      ∷ [];
  idempotency_key = idem_base w ⧺ ":subscription.payment_failed";
  partition_key = str_ℕ x.organization_id;
}

abbrev grace_json : Host → Option ℕ → ℕ → Json
grace_json host none days' = null
grace_json host (some t) days' = str (host.isoformat (compute_grace_until t days'))

unfoldable pub past_due_fact : WebhookEvent → Subscription → Plan → String → Host → Fact
past_due_fact w x plan org host = record {
  aggregate_type = "subscription";
  aggregate_id = x.public_id;
  event_type = "subscription.past_due";
  payload =
      ("subscription_public_id", str x.public_id)
      ∷ ("organization_public_id", str org)
      ∷ ("webhook_id", str w.id)
      ∷ ("grace_until", grace_json host x.past_due_entered_at plan.grace_period_days)
      ∷ [];
  idempotency_key = idem_base w ⧺ ":subscription.past_due";
  partition_key = str_ℕ x.organization_id;
}

abbrev pub dunning_start : WebhookEvent → Subscription → Start
dunning_start w x = record {
  subscription_id = x.id;
  organization_id = x.organization_id;
  idempotency_key = idem_base w ⧺ ":dunning_campaign";
  started_at = none;
}

-- What the handler finds around it: `dunning_enabled`, and the campaigns that other transactions commit
-- while it starts one.
pub record Surroundings : Type 0 where
  pub dunning_enabled : Bool
  pub rivals : List DunningCampaign

unfoldable pub start_dunning : Surroundings → Start → Exec (Unit {0})
start_dunning around a =
    if around.dunning_enabled
    then (do start_campaign around.dunning_enabled around.rivals a; pure tt)
    else pure tt

-- `_handle_invoice_payment_failed` on the loaded row.
unfoldable pub mark_overdue : Surroundings → WebhookEvent → Fields → Subscription → Exec (List ℕ)
mark_overdue around w invoice x = do
  y ← transition_subscription x past_due
  plan ← load_plan y.plan_id
  found ← select (org_public_id y.organization_id)
  org ← scalar_one found
  enqueue_outbox (payment_failed_fact w y org invoice)
  host ← gets (λ s. s.host)
  enqueue_outbox (past_due_fact w y plan org host)
  start_dunning around (dunning_start w y)
  pure (y.organization_id ∷ [])

unfoldable pub handle_invoice_payment_failed : Surroundings → WebhookEvent → Exec (List ℕ)
unfolding extract_data_object load_subscription mark_overdue
handle_invoice_payment_failed around w = do
  invoice ← extract_data_object w.payload
  x ← load_subscription "invoice.payment_failed" invoice
  mark_overdue around w invoice x

-- `_dispatch_event`: `none` where no handler takes the event, and its status becomes SKIPPED.
unfoldable pub dispatch_event : Surroundings → WebhookEvent → Exec (Option (List ℕ))
unfolding handle_invoice_paid handle_invoice_payment_failed
dispatch_event around w =
    if str_eq w.event_type "invoice.paid"
    then (do orgs ← handle_invoice_paid w; pure (some orgs))
    else if str_eq w.event_type "invoice.payment_failed"
    then (do orgs ← handle_invoice_payment_failed around w; pure (some orgs))
    else pure none
