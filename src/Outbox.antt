-- ===== src/Outbox.antt =====
-- The transactional outbox: src/billing_platform/services/outbox.py and
-- src/billing_platform/services/outbox_hooks.py.
pub mod Laws
use saas_billing_entitlement.Prelude.{
  ℕ, zero, Bool, ◌||◌, not, none, String, [], ◌∷◌, ◌++◌, if◌then◌else◌, any, where_rows,
}
use saas_billing_entitlement.Prelude.Int.{ℤ}
use saas_billing_entitlement.Prelude.Text.{str_eq}
use saas_billing_entitlement.Db.Json.{Json, Dict}
use saas_billing_entitlement.Db.Rows.{OutboxMessage, Tables}
use saas_billing_entitlement.Db.Session.{
  Session, Exec, pure, gets, select, modify, new_id, ◌>>=◌, ◌>>◌,
}

-- The keyword arguments of `enqueue_outbox`.
pub record Fact : Type 0 where
  pub aggregate_type : String
  pub aggregate_id : String
  pub event_type : String
  pub payload : Dict
  pub idempotency_key : String
  pub partition_key : String

-- `_FORBIDDEN_PAYLOAD_KEYS`
abbrev pub is_forbidden : String → Bool
is_forbidden key = str_eq key "organization_id" || str_eq key "subscription_id"

-- `_sanitize_payload`
unfoldable pub sanitize_payload : Dict → Dict
sanitize_payload = where_rows (λ (e : String × Json). not (is_forbidden e.0))

abbrev pub message_has_key : String → OutboxMessage → Bool
message_has_key key m = str_eq m.idempotency_key key

abbrev pub is_enqueued : String → Tables → Bool
is_enqueued key t = any (message_has_key key) t.outbox

-- The row that `enqueue` inserts, with the defaults of the table.
unfoldable pub new_message : Fact → ℕ → ℕ → OutboxMessage
unfolding sanitize_payload
new_message f id created_at = record {
  id = id;
  aggregate_type = f.aggregate_type;
  aggregate_id = f.aggregate_id;
  event_type = f.event_type;
  payload = sanitize_payload f.payload;
  idempotency_key = f.idempotency_key;
  partition_key = f.partition_key;
  created_at = created_at;
  published_at = none;
  publish_attempts = 0;
  last_error = none;
}

abbrev pub add_message : OutboxMessage → Tables → Tables
add_message m t = record t { outbox = t.outbox ++ m ∷ [] }

-- `OutboxService.enqueue`: the new row's id, or 0 on a conflict of keys. The sequence moves on
-- either way.
unfoldable pub enqueue : Fact → Exec ℕ
enqueue f = do
  id ← new_id
  created_at ← gets (λ s. s.transaction_time)
  taken ← select (is_enqueued f.idempotency_key)
  if taken then pure 0 else (modify (add_message (new_message f id created_at)) >> pure id)

-- `enqueue_outbox`
unfoldable pub enqueue_outbox : Fact → Exec (Unit {0})
unfolding enqueue
enqueue_outbox f = do enqueue f; pure tt
