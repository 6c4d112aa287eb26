-- ===== src/Examples/Relay.antt =====
-- The relay at a concrete outbox.
use saas_billing_entitlement.Prelude.{
  ℕ, ◌++◌, ◌≤◌, ◌≡◌, refl, ◌⊎◌, Bool, false, none, some, List, [], ◌∷◌, arith, length, where_rows,
  count_rows,
}
use saas_billing_entitlement.Db.Rows.{OutboxMessage, OutboxDeadLetter}
use saas_billing_entitlement.Db.Session.{Session, ok}
use saas_billing_entitlement.Outbox.{Fact, enqueue_outbox}
use saas_billing_entitlement.Relay.Envelope.{Broker}
use saas_billing_entitlement.Relay.Publish.{
  Relay, order_by_age, insert_by_age, claimable, claim_outbox_batch, poll_and_publish,
}
use saas_billing_entitlement.Relay.Claims.{IsOrdered, claim_outbox_batch-oldest}
use saas_billing_entitlement.Relay.Laws.{IsAccounted}
use saas_billing_entitlement.Relay.Replay.{ReplayResult, replay_dead_letters}
use saas_billing_entitlement.Relay.Again.{replay_dead_letters-again}
use saas_billing_entitlement.Relay.Ids.{message_ids}
use saas_billing_entitlement.Relay.Histories.{
  start, then_step, enqueued, polled, replayed_letters, outbox-IsAccounted,
}
use saas_billing_entitlement.Examples.Data.{session, payment_event}

-- A producer that refuses every message.
abbrev refusing : Broker
refusing = record { uuid5 = λ text. text; send = λ log message. some "no broker" }

abbrev no_lock : OutboxMessage → Bool
no_lock m = false

abbrev newer_event : OutboxMessage
newer_event = record payment_event { id = 7; created_at = 950 }

abbrev lost_event : OutboxMessage
lost_event = record payment_event { id = 8; published_at = some 960; publish_attempts = 10 }

abbrev letter : OutboxDeadLetter
letter = record {
  id = 1;
  outbox_message_id = 8;
  aggregate_type = "ledger";
  aggregate_id = "entry-5";
  event_type = "ledger.entry_posted";
  payload = [];
  partition_key = "1";
  publish_attempts = 10;
  last_error = some "no broker";
  moved_at = 960;
  replayed_at = none;
}

abbrev busy : Session
busy = record session {
  tables = record session.tables {
    outbox = newer_event ∷ payment_event ∷ lost_event ∷ [];
    dead_letters = letter ∷ [];
  };
}

abbrev fact : Fact
fact = record {
  aggregate_type = "subscription";
  aggregate_id = "sub-11";
  event_type = "subscription.canceled";
  payload = [];
  idempotency_key = "cancel-11";
  partition_key = "1";
}

claim_outbox_batch-oldest_example :
    (rest : List OutboxMessage) × IsOrdered (payment_event ∷ rest)
    × ((p : OutboxMessage → Bool)
        → count_rows p (payment_event ∷ rest)
          ≡ count_rows p (where_rows (claimable no_lock 10) busy.tables.outbox))
    × (length (payment_event ∷ []) ≤ 1)
    × ((rest ≡ []) ⊎ (length (payment_event ∷ []) ≡ 1))
unfolding claim_outbox_batch order_by_age insert_by_age
claim_outbox_batch-oldest_example = claim_outbox_batch-oldest no_lock 1 10 busy.tables.outbox

replay_dead_letters-again_example :
    let (r, s') = replay_dead_letters false (1 ∷ 5 ∷ []) busy in
    (results : List ReplayResult) × (r ≡ ok results)
    × (again : List ReplayResult) × (replay_dead_letters false (1 ∷ 5 ∷ []) s' ≡ (ok again, s'))
replay_dead_letters-again_example = replay_dead_letters-again (1 ∷ 5 ∷ []) busy

-- A message is enqueued, a poll fails, and the dead letter is replayed.
abbrev after_enqueue : Session
after_enqueue = (enqueue_outbox fact busy).1

abbrev after_poll : Relay
after_poll = poll_and_publish refusing no_lock 100 10 [] after_enqueue

outbox-IsAccounted_example :
    let t = (replay_dead_letters false (1 ∷ []) after_poll.session).1.tables in
    ((added : List ℕ) × (message_ids t ≡ message_ids busy.tables ++ added))
    × IsAccounted 10 after_poll.sent t
outbox-IsAccounted_example =
    outbox-IsAccounted (omega arith)
      (then_step (then_step (then_step start (enqueued fact)) (polled refusing no_lock 100))
        (replayed_letters (1 ∷ [])))
      (refl, (refl, (refl, tt)))
