-- ===== src/Examples/Runs.antt =====
-- Runs of the operations on the example database.
use saas_billing_entitlement.Relay.Envelope.{resolve_topic}
use saas_billing_entitlement.Prelude.{◌≡◌, refl, true, [], ◌∷◌, if◌then◌else◌, map}
use saas_billing_entitlement.Prelude.Text.{str_eq, str_ℕ}
use saas_billing_entitlement.Db.Json.{str, get}
use saas_billing_entitlement.Db.Rows.{DunningCampaign, running, completed, exhausted}
use saas_billing_entitlement.Db.Session.{Session, ok}
use saas_billing_entitlement.Dunning.Attempts.{
  Provider, process_due_attempts, execute_attempt, newest_open, save_attempt, attempt_fact,
  next_status,
}
use saas_billing_entitlement.Dunning.Campaigns.{save_campaign}
use saas_billing_entitlement.Outbox.{enqueue_outbox, new_message}
use saas_billing_entitlement.Examples.Data.{session, tables, campaign_row}

-- Three attempts are due at once; the provider accepts the second retry only.
abbrev running_session : Session
running_session = record session {
  tables = record tables { campaigns = campaign_row "c1" running ∷ [] };
}

abbrev provider : Provider
provider attempt_id invoice_id =
    ok (("status", str (if str_eq attempt_id "c12" then "paid" else "open")) ∷ [])

-- The third attempt runs after the second has completed the campaign, and marks it exhausted.
late_attempt :
    let (r, s') = process_due_attempts true provider 5000 running_session in
    (r ≡ ok 3) × (map (λ (c : DunningCampaign). c.status) s'.tables.campaigns ≡ exhausted ∷ [])
unfolding process_due_attempts execute_attempt newest_open save_attempt attempt_fact next_status
    save_campaign enqueue_outbox new_message get str_ℕ
late_attempt = (refl, refl)

-- Before the third is due, the second leaves the campaign completed.
second_attempt :
    let (r, s') = process_due_attempts true provider 3500 running_session in
    (r ≡ ok 2) × (map (λ (c : DunningCampaign). c.status) s'.tables.campaigns ≡ completed ∷ [])
unfolding process_due_attempts execute_attempt newest_open save_attempt attempt_fact next_status
    save_campaign enqueue_outbox new_message get str_ℕ
second_attempt = (refl, refl)

-- The topics of three events.
revoked_topic : resolve_topic "subscription.access_revoked" ≡ "billing.subscription.events"
unfolding resolve_topic
revoked_topic = refl

usage_topic : resolve_topic "usage.period_closed" ≡ "billing.dlq"
unfolding resolve_topic
usage_topic = refl

dunning_topic : resolve_topic "dunning.attempt_failed" ≡ "billing.dlq"
unfolding resolve_topic
dunning_topic = refl
