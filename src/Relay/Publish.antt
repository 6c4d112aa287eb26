-- ===== src/Relay/Publish.antt =====
-- Claiming and publishing: `claim_outbox_batch` and `poll_and_publish` of
-- src/billing_platform/outbox_relay/publisher.py. A poll is one transaction; what was sent stays sent.
use saas_billing_entitlement.Prelude.{
  ℕ, ◌+◌, ◌==◌, ltb, leb, Bool, ◌&&◌, not, Option, none, some, is_some, String, List, [], ◌∷◌, ◌++◌,
  if◌then◌else◌, take, where_rows, update_rows,
}
use saas_billing_entitlement.Prelude.Text.{◌⧺◌}
use saas_billing_entitlement.Db.Rows.{OutboxMessage, OutboxDeadLetter, Organization}
use saas_billing_entitlement.Db.Session.{Session}
use saas_billing_entitlement.Relay.Envelope.{
  dlq_topic, resolve_topic, KafkaRecord, Sent, Broker, build_envelope, org_of_key, kafka_record,
}

-- The session of the poll, all that the producer was sent, and the count of what was published.
pub record Relay : Type 0 where
  pub session : Session
  pub sent : List Sent
  pub published_count : ℕ

abbrev pub is_pending : OutboxMessage → Bool
is_pending m = not (is_some m.published_at)

abbrev pub message_has_id : ℕ → OutboxMessage → Bool
message_has_id id m = m.id == id

-- `ORDER BY created_at`
unfoldable pub insert_by_age : OutboxMessage → List OutboxMessage → List OutboxMessage
insert_by_age m [] = m ∷ []
insert_by_age m (x ∷ xs) =
    let rest = insert_by_age m xs in if leb m.created_at x.created_at then m ∷ x ∷ xs else x ∷ rest

unfoldable pub order_by_age : List OutboxMessage → List OutboxMessage
unfolding insert_by_age
order_by_age [] = []
order_by_age (m ∷ ms) = insert_by_age m (order_by_age ms)

-- Rows that another replica holds locked are skipped.
abbrev pub claimable : (OutboxMessage → Bool) → ℕ → OutboxMessage → Bool
claimable locked max_attempts m =
    is_pending m && (ltb m.publish_attempts max_attempts && not (locked m))

unfoldable pub claim_outbox_batch :
    (OutboxMessage → Bool) → ℕ → ℕ → List OutboxMessage → List OutboxMessage
unfolding order_by_age
claim_outbox_batch locked limit max_attempts rows =
    take limit (order_by_age (where_rows (claimable locked max_attempts) rows))

-- `_publish_envelope`: the producer's answer, and what it has been sent then.
unfoldable pub publish_envelope : Broker → KafkaRecord → List Sent → Sent
publish_envelope b r log = record { message = r; answer = b.send log r }

abbrev pub dead_letter : OutboxMessage → ℕ → ℕ → OutboxDeadLetter
dead_letter m id moved_at = record {
  id = id;
  outbox_message_id = m.id;
  aggregate_type = m.aggregate_type;
  aggregate_id = m.aggregate_id;
  event_type = m.event_type;
  payload = m.payload;
  partition_key = m.partition_key;
  publish_attempts = m.publish_attempts;
  last_error = m.last_error;
  moved_at = moved_at;
  replayed_at = none;
}

-- A claimed row with its new values.
abbrev pub save_message : OutboxMessage → Session → Session
save_message m s = record s {
  tables = record s.tables { outbox = update_rows (message_has_id m.id) (λ _. m) s.tables.outbox };
}

abbrev pub published_row : OutboxMessage → ℕ → OutboxMessage
published_row m now = record m { published_at = some now }

abbrev pub failed_row : OutboxMessage → String → OutboxMessage
failed_row m text = record m { publish_attempts = m.publish_attempts + 1; last_error = some text }

-- `_move_to_dead_letter`
unfoldable pub move_to_dead_letter : OutboxMessage → Session → Session
move_to_dead_letter m s = save_message (published_row m (s.host.clock s.readings)) (record s {
  tables = record s.tables {
    dead_letters = s.tables.dead_letters ++ dead_letter m s.next_id s.transaction_time ∷ [];
  };
  next_id = s.next_id + 1;
  readings = s.readings + 1;
})

-- A failed attempt: the row counts it, and after the last one it becomes a dead letter, which is also
-- sent, whatever the producer answers.
unfoldable pub count_failure : Broker → ℕ → OutboxMessage → String → String → Relay → Relay
unfolding move_to_dead_letter publish_envelope
count_failure b max_attempts m text org r =
    let row = failed_row m text in
    if leb max_attempts row.publish_attempts
    then record r {
      session = move_to_dead_letter row r.session;
      sent =
          r.sent
          ++ publish_envelope b
              (kafka_record dlq_topic m.id m.partition_key (build_envelope b r.session.host m org))
              r.sent
            ∷ [];
    }
    else record r { session = save_message row r.session }

-- What follows the call of the producer.
unfoldable pub settle_row : Broker → ℕ → OutboxMessage → String → Option String → Relay → Relay
unfolding count_failure
settle_row b max_attempts m org (some text) r = count_failure b max_attempts m text org r
settle_row b max_attempts m org none r = record r {
  session =
      save_message (published_row m (r.session.host.clock r.session.readings))
        (record r.session { readings = r.session.readings + 1 });
  published_count = r.published_count + 1;
}

-- One row of the loop, with its organization.
unfoldable pub relay_known : Broker → ℕ → OutboxMessage → Option String → Relay → Relay
unfolding settle_row
relay_known b max_attempts m none r =
    count_failure b max_attempts m ("organization not found for partition_key=" ⧺ m.partition_key)
      "unknown" r
relay_known b max_attempts m (some org) r =
    let sent =
      publish_envelope b
        (kafka_record (resolve_topic m.event_type) m.id m.partition_key
          (build_envelope b r.session.host m org))
        r.sent in
    settle_row b max_attempts m org sent.answer (record r { sent = r.sent ++ sent ∷ [] })

unfoldable pub relay_rows : Broker → ℕ → List Organization → List OutboxMessage → Relay → Relay
unfolding relay_known
relay_rows b max_attempts orgs [] r = r
relay_rows b max_attempts orgs (m ∷ rows) r =
    relay_rows b max_attempts orgs rows
      (relay_known b max_attempts m (org_of_key orgs m.partition_key) r)

-- `poll_and_publish` in an open session; `published_count` of the answer is what it returns.
unfoldable pub poll_and_publish :
    Broker → (OutboxMessage → Bool) → ℕ → ℕ → List Sent → Session → Relay
unfolding relay_rows
poll_and_publish b locked limit max_attempts log s =
    relay_rows b max_attempts s.tables.organizations
      (claim_outbox_batch locked limit max_attempts s.tables.outbox)
      (record { session = s; sent = log; published_count = 0 })
