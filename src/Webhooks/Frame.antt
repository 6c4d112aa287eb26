-- ===== src/Webhooks/Frame.antt =====
-- The handlers leave the webhooks alone.
use saas_billing_entitlement.Prelude.{refl, ap, Bool, true, false, Option, some, String, List}
use saas_billing_entitlement.Db.Json.{Fields, obj, Json, get_field}
use saas_billing_entitlement.Db.Rows.{
  LedgerEntry, Subscription, DunningCampaign, WebhookEvent, Tables,
}
use saas_billing_entitlement.Db.Session.{Session}
use saas_billing_entitlement.Db.Keeps.{Keeps, keeps, pure-Keeps, raise-Keeps}
use saas_billing_entitlement.Lifecycle.{Status}
use saas_billing_entitlement.Dunning.Campaigns.{Start, start_campaign}
use saas_billing_entitlement.Dunning.Frame.{start_campaign-Keeps}
use saas_billing_entitlement.Outbox.{Fact, enqueue_outbox}
use saas_billing_entitlement.Outbox.Laws.{enqueue_outbox_lem}
use saas_billing_entitlement.Ledger.{Posting, post}
use saas_billing_entitlement.Ledger.Laws.{post-frame}
use saas_billing_entitlement.Subscriptions.{save}
use saas_billing_entitlement.Webhooks.Handlers.{
  object_of, data_of, extract_data_object, find_subscription, load_subscription,
  transition_subscription, post_held, post_payment, activate, handle_invoice_paid, load_plan,
  Surroundings, start_dunning, mark_overdue, handle_invoice_payment_failed, dispatch_event,
}

abbrev pub webhooks_of : Tables → List WebhookEvent
webhooks_of t = t.webhooks

save-Keeps : (x : Subscription) → Keeps webhooks_of (save x)
unfolding save
save-Keeps x = record { at = λ s. refl }

enqueue-Keeps : (f : Fact) → Keeps webhooks_of (enqueue_outbox f)
enqueue-Keeps f = record { at = λ s. rw enqueue_outbox_lem refl }

post-Keeps : (p : Posting) → Keeps webhooks_of (post p)
post-Keeps p = record { at = λ s. ap (λ (t : Session). t.tables.webhooks) (post-frame p s) }

object-Keeps : (j : Option Json) → Keeps webhooks_of (object_of j)
unfolding object_of
object-Keeps (some (obj fields)) = pure-Keeps webhooks_of fields
object-Keeps _ = raise-Keeps webhooks_of _

transition-Keeps :
    (x : Subscription) (status : Status) → Keeps webhooks_of (transition_subscription x status)
unfolding transition_subscription
transition-Keeps x status = search (keeps, save-Keeps)

held-Keeps : (b : Bool) (p : Posting) → Keeps webhooks_of (post_held b p)
unfolding post_held
held-Keeps true p = search (keeps, post-Keeps) depth 10
held-Keeps false p = raise-Keeps webhooks_of _

payment-Keeps :
    (p : Posting) (existing : Option LedgerEntry) → Keeps webhooks_of (post_payment p existing)
unfolding post_payment
payment-Keeps p existing = search (keeps, held-Keeps) depth 10

pub activate-Keeps :
    (w : WebhookEvent) (invoice : Fields) (x : Subscription)
    → Keeps webhooks_of (activate w invoice x)
unfolding activate
activate-Keeps w invoice x = search (keeps, transition-Keeps, enqueue-Keeps, payment-Keeps) depth 20

data-Keeps : (j : Option Json) → Keeps webhooks_of (data_of j)
unfolding data_of
data-Keeps (some (obj fields)) = object-Keeps (get_field "object" fields)
data-Keeps _ = raise-Keeps webhooks_of _

load-Keeps :
    (event_type : String) (invoice : Fields)
    → Keeps webhooks_of (load_subscription event_type invoice)
unfolding load_subscription find_subscription
load-Keeps event_type invoice = search (keeps) depth 20

paid-Keeps : (w : WebhookEvent) → Keeps webhooks_of (handle_invoice_paid w)
unfolding handle_invoice_paid extract_data_object
paid-Keeps w = search (keeps, data-Keeps, load-Keeps, activate-Keeps) depth 20

start-Keeps : (around : Surroundings) (a : Start) → Keeps webhooks_of (start_dunning around a)
unfolding start_dunning
start-Keeps around a = search (keeps, start_campaign-webhooks) depth 10
  where
    start_campaign-webhooks :
        (enabled : Bool) (rivals : List DunningCampaign) (b : Start)
        → Keeps webhooks_of (start_campaign enabled rivals b)
    start_campaign-webhooks enabled rivals b = record {
      at = λ s. ap webhooks_of ((start_campaign-Keeps enabled rivals b).at s);
    }

plan-Keeps : (id : String) → Keeps webhooks_of (load_plan id)
unfolding load_plan
plan-Keeps id = search (keeps) depth 10

overdue-Keeps :
    (around : Surroundings) (w : WebhookEvent) (invoice : Fields) (x : Subscription)
    → Keeps webhooks_of (mark_overdue around w invoice x)
unfolding mark_overdue
overdue-Keeps around w invoice x =
    search (keeps, transition-Keeps, plan-Keeps, enqueue-Keeps, start-Keeps) depth 30

failed-Keeps :
    (around : Surroundings) (w : WebhookEvent)
    → Keeps webhooks_of (handle_invoice_payment_failed around w)
unfolding handle_invoice_payment_failed extract_data_object
failed-Keeps around w = search (keeps, data-Keeps, load-Keeps, overdue-Keeps) depth 20

pub dispatch_event-Keeps :
    (around : Surroundings) (w : WebhookEvent) → Keeps webhooks_of (dispatch_event around w)
unfolding dispatch_event
dispatch_event-Keeps around w = search (keeps, paid-Keeps, failed-Keeps) depth 20
