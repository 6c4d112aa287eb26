-- ===== src/Examples/Webhooks.antt =====
-- Webhooks at concrete events.
use saas_billing_entitlement.Prelude.{
  ℕ, ◌≡◌, refl, ◌⊎◌, true, false, none, some, String, List, [], ◌∷◌, arith,
}
use saas_billing_entitlement.Prelude.Int.{pos}
use saas_billing_entitlement.Prelude.Text.{str_eq, ◌⧺◌, str_ℕ}
use saas_billing_entitlement.Lifecycle.{active, transition, allowed_transitions}
use saas_billing_entitlement.Db.Json.{Fields, field, end, str, int, obj, get, get_field}
use saas_billing_entitlement.Db.Rows.{WebhookEvent, WebhookStatus, received, failed, Subscription}
use saas_billing_entitlement.Db.Session.{Session, ok, err, pending_rollback, is_refused}
use saas_billing_entitlement.Ledger.Laws.{IsSound}
use saas_billing_entitlement.Subscriptions.{illegal_text, save}
use saas_billing_entitlement.Outbox.{enqueue_outbox, new_message, sanitize_payload}
use saas_billing_entitlement.Webhooks.Handlers.{
  Surroundings, dispatch_event, handle_invoice_paid, extract_data_object, data_of, object_of,
  load_subscription, find_subscription, activate, transition_subscription, post_payment, payment,
  activated_fact,
}
use saas_billing_entitlement.Webhooks.Process.{
  Delivery, persist_webhook, process_webhook, reset_webhook, replay_webhook, replayed,
  already_processed, webhook_by_id, begun, failed_row, processed_row, is_terminal, is_done,
  process_found, run_webhook, save_webhook, settle,
}
use saas_billing_entitlement.Webhooks.Laws.{
  HasUniqueEvents, Settled, handled, persist_webhook-once, process_webhook-Settled,
  replay_webhook-Settled,
}
use saas_billing_entitlement.Webhooks.Payments.{
  Names, Recorded, invoice_paid-Recorded, invoice_paid-illegal,
}
use saas_billing_entitlement.Examples.Data.{session, session-IsSound, overdue, current}

abbrev quiet : Surroundings
quiet = record { dunning_enabled = false; rivals = [] }

abbrev invoice : String → Fields
invoice id =
    field "id" (str "in_1")
      (field "subscription" (str id) (field "amount_paid" (int (pos 700)) end))

abbrev payment_of : String → String → WebhookStatus → WebhookEvent
payment_of id subscription status = record {
  id = id;
  provider = "stripe";
  provider_event_id = "evt-" ⧺ id;
  event_type = "invoice.paid";
  payload = ("data", obj (field "object" (obj (invoice subscription)) end)) ∷ [];
  status = status;
  processing_attempts = 1;
  last_error = none;
  processed_at = none;
}

abbrev late_payment : WebhookEvent
late_payment = payment_of "w1" "sub_late" received

abbrev renewal : WebhookEvent
renewal = payment_of "w2" "sub_current" received

abbrev stuck : WebhookEvent
stuck = payment_of "w3" "sub_unknown" failed

abbrev late_row : Subscription
late_row = record overdue { external_subscription_id = some "sub_late" }

abbrev current_row : Subscription
current_row = record current { external_subscription_id = some "sub_current" }

abbrev delivered : Session
delivered = record session {
  tables = record session.tables {
    subscriptions = late_row ∷ current_row ∷ [];
    webhooks = late_payment ∷ renewal ∷ stuck ∷ [];
  };
}

delivered-IsSound : IsSound delivered.tables
delivered-IsSound = record {
  unique = session-IsSound.unique;
  announced = session-IsSound.announced;
}

abbrev delivery : Delivery
delivery = record {
  provider_event_id = "evt-w1";
  event_type = "invoice.paid";
  payload = [];
  provider = "stripe";
}

abbrev once_delivered : Session
once_delivered = record session { tables = record session.tables { webhooks = late_payment ∷ [] } }

once-HasUniqueEvents : HasUniqueEvents once_delivered.tables
once-HasUniqueEvents id = ground arith

persist_webhook-once_example :
    let (r, s') = persist_webhook delivery once_delivered in
    HasUniqueEvents s'.tables × (r ≡ ok none) × (s'.tables ≡ once_delivered.tables)
persist_webhook-once_example = persist_webhook-once delivery once_delivered once-HasUniqueEvents

process_webhook-Settled_example :
    let (result, s') = process_webhook quiet "w2" delivered in
    ((is_refused (handled quiet renewal delivered) ≡ true) × (result ≡ err pending_rollback))
    ⊎ ((is_refused (handled quiet renewal delivered) ≡ false)
        × (orgs : List ℕ) × (result ≡ ok orgs)
        × Settled "w2" 2 s'.tables
        × (process_webhook quiet "w2" s' ≡ (ok [], s')))
process_webhook-Settled_example = process_webhook-Settled quiet "w2" renewal delivered refl refl

replay_webhook-Settled_example :
    let (result, s') = replay_webhook quiet "w3" delivered in
    let again = (reset_webhook stuck delivered).1 in
    ((is_done failed ≡ true)
      × (result
          ≡ ok (record {
            webhook_id = "w3";
            outcome = already_processed;
            status = failed;
            orgs_to_invalidate = [];
          }))
      × (s' ≡ delivered))
    ⊎ ((is_done failed ≡ false)
        × (w1 : WebhookEvent) × (webhook_by_id "w3" again.tables ≡ some w1)
        × (is_refused (handled quiet w1 again) ≡ true)
        × (result ≡ err pending_rollback))
    ⊎ ((is_done failed ≡ false)
        × (orgs : List ℕ) × (w' : WebhookEvent) × (webhook_by_id "w3" s'.tables ≡ some w')
        × (is_terminal w'.status ≡ true)
        × (w'.processing_attempts ≡ 2)
        × (result
            ≡ ok (record {
              webhook_id = "w3";
              outcome = replayed;
              status = w'.status;
              orgs_to_invalidate = orgs;
            })))
replay_webhook-Settled_example = replay_webhook-Settled quiet stuck delivered refl

named :
    (w : WebhookEvent) (id : String)
    → w.payload ≡ ("data", obj (field "object" (obj (invoice id)) end)) ∷ []
    → w.event_type ≡ "invoice.paid"
    → str_eq id "" ≡ false
    → Names w "invoice.paid" (invoice id) id
unfolding get get_field
named w id payload typed full = record {
  data_fields = field "object" (obj (invoice id)) end;
  typed = typed;
  has_data = rw payload refl;
  has_object = refl;
  has_subscription = rw full refl;
}

invoice_paid-Recorded_example :
    let (result, s') = process_webhook quiet "w1" delivered in
    (result ≡ ok (1 ∷ []))
    × (now : ℕ) × (webhook_by_id "w1" s'.tables ≡ some (processed_row (begun late_payment) now))
    × Recorded late_payment late_row (pos 700) delivered.tables s'.tables
unfolding transition get_field
invoice_paid-Recorded_example =
    invoice_paid-Recorded quiet late_payment (invoice "sub_late") "sub_late" late_row "org-acme"
      (pos 700) (named late_payment "sub_late" refl refl refl) refl delivered refl refl refl refl
      refl refl refl refl delivered-IsSound

invoice_paid-illegal_example :
    let s' = (process_webhook quiet "w2" delivered).1 in
    let row = failed_row (begun renewal) (illegal_text active active) in
    (webhook_by_id "w2" s'.tables ≡ some row)
    × (s'.tables.subscriptions ≡ delivered.tables.subscriptions)
    × (s'.tables.ledger ≡ delivered.tables.ledger)
    × (s'.tables.outbox ≡ delivered.tables.outbox)
unfolding transition
invoice_paid-illegal_example =
    invoice_paid-illegal quiet renewal (invoice "sub_current") "sub_current" current_row
      (named renewal "sub_current" refl refl refl) delivered refl refl refl refl

-- A currency that the column cannot hold: the row of the webhook cannot be marked as failed.
abbrev odd_payment : WebhookEvent
odd_payment = record late_payment {
  id = "w4";
  payload =
      (
        "data",
        obj (
            field "object"
              (obj (field "currency" (str "EURO") (field "subscription" (str "sub_late") end)))
              end),
      )
      ∷ [];
}

abbrev odd_delivery : Session
odd_delivery = record delivered { tables = record delivered.tables { webhooks = odd_payment ∷ [] } }

odd_payment_raises : (process_webhook quiet "w4" odd_delivery).0 ≡ err pending_rollback
unfolding process_webhook process_found run_webhook save_webhook dispatch_event handle_invoice_paid
    extract_data_object data_of object_of load_subscription find_subscription activate
    transition_subscription transition allowed_transitions save enqueue_outbox new_message
    post_payment payment settle get get_field activated_fact sanitize_payload str_ℕ
odd_payment_raises = refl
