-- ===== src/Relay/Envelope.antt =====
-- What the relay sends to Kafka: topics and envelopes, of
-- src/billing_platform/outbox_relay/publisher.py and src/billing_platform/events/schemas/v1/envelope.py.
use saas_billing_entitlement.Prelude.{
  ℕ, Bool, ◌||◌, Option, none, some, String, List, [], ◌∷◌, if◌then◌else◌, find_row,
}
use saas_billing_entitlement.Prelude.Int.{pos}
use saas_billing_entitlement.Prelude.Text.{str_eq, str_ℕ, starts_with, ◌⧺◌}
use saas_billing_entitlement.Db.Json.{Json, str, int, obj, Dict, get, to_fields}
use saas_billing_entitlement.Db.Rows.{OutboxMessage, Organization}
use saas_billing_entitlement.Db.Session.{Host}

abbrev pub schema_version : ℕ
schema_version = 1

abbrev pub dlq_topic : String
dlq_topic = "billing.dlq"

unfoldable pub resolve_topic : String → String
resolve_topic event_type =
    if starts_with event_type "subscription."
    then "billing.subscription.events"
    else if starts_with event_type "invoice."
    then "billing.invoice.events"
    else if starts_with event_type "ledger."
    then "billing.ledger.events"
    else if starts_with event_type "reconciliation."
    then "billing.reconciliation.events"
    else if starts_with event_type "entitlement." || starts_with event_type "subscription.access_"
    then "billing.entitlement.events"
    else dlq_topic

pub record EventEnvelope : Type 0 where
  pub schema_version : ℕ
  pub event_id : String
  pub event_type : String
  pub occurred_at : String
  pub organization_id : String
  pub correlation_id : String
  pub payload : Dict

unfoldable pub to_dict : EventEnvelope → Dict
to_dict e =
    ("schema_version", int (pos e.schema_version))
    ∷ ("event_id", str e.event_id)
    ∷ ("event_type", str e.event_type)
    ∷ ("occurred_at", str e.occurred_at)
    ∷ ("organization_id", str e.organization_id)
    ∷ ("correlation_id", str e.correlation_id)
    ∷ ("payload", obj (to_fields e.payload))
    ∷ []

-- A message as the producer takes it; its body is the text of `value`.
pub record KafkaRecord : Type 0 where
  pub topic : String
  pub value : Dict
  pub key : String
  pub headers : List (String × String)

-- A message with the producer's answer: `none` if it was acknowledged, else the text of the exception.
pub record Sent : Type 0 where
  pub message : KafkaRecord
  pub answer : Option String

-- `uuid.uuid5` in the namespace of URLs, and what the producer answers after all it was sent before.
pub record Broker : Type 0 where
  pub uuid5 : String → String
  pub send : List Sent → KafkaRecord → Option String

unfoldable pub stable_event_id : Broker → ℕ → String
stable_event_id b outbox_id = b.uuid5 ("billing-platform:outbox:" ⧺ str_ℕ outbox_id)

abbrev text_or_id : Option Json → ℕ → String
text_or_id (some (str s)) outbox_id = if str_eq s "" then str_ℕ outbox_id else s
text_or_id _ outbox_id = str_ℕ outbox_id

unfoldable pub extract_correlation_id : Dict → ℕ → String
extract_correlation_id payload outbox_id = text_or_id (get "webhook_id" payload) outbox_id

unfoldable pub build_envelope : Broker → Host → OutboxMessage → String → EventEnvelope
unfolding stable_event_id extract_correlation_id
build_envelope b host m organization_public_id = record {
  schema_version = schema_version;
  event_id = stable_event_id b m.id;
  event_type = m.event_type;
  occurred_at = host.isoformat m.created_at;
  organization_id = organization_public_id;
  correlation_id = extract_correlation_id m.payload m.id;
  payload = m.payload;
}

-- `_load_org_public_ids`, and the lookup of a row's key in its answer: the key is digits, and the text
-- of the number of an organization.
abbrev pub has_partition_key : String → Organization → Bool
has_partition_key key o = str_eq (str_ℕ o.id) key

unfoldable pub org_of_key : List Organization → String → Option String
org_of_key orgs key = elim (find_row (has_partition_key key) orgs) [
  | none ↦ none
  | some o ↦ some o.public_id
]

-- The message that `_publish_envelope` sends.
unfoldable pub kafka_record : String → ℕ → String → EventEnvelope → KafkaRecord
unfolding to_dict
kafka_record topic outbox_id partition_key e = record {
  topic = topic;
  value = to_dict e;
  key = str_ℕ outbox_id;
  headers =
      ("event_type", e.event_type)
      ∷ ("schema_version", str_ℕ e.schema_version)
      ∷ ("partition_key", partition_key)
      ∷ [];
}
