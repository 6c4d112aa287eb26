-- ===== src/Relay/Replay.antt =====
-- Replaying dead letters: src/billing_platform/outbox_relay/dlq_replay.py.
use saas_billing_entitlement.Prelude.{
  ℕ, ◌==◌, Bool, true, false, not, Option, none, some, String, List, [], ◌∷◌, where_rows, find_row,
  update_rows,
}
use saas_billing_entitlement.Db.Rows.{OutboxMessage, OutboxDeadLetter, Tables}
use saas_billing_entitlement.Db.Session.{
  Exec, pure, gets, select, modify, now_utc, rollback, ◌>>=◌, ◌>>◌,
}
use saas_billing_entitlement.Relay.Publish.{message_has_id}

pub data ReplayStatus : Type 0 where
  replayed already_replayed not_found outbox_missing : ReplayStatus

pub record ReplayResult : Type 0 where
  pub dlq_id : ℕ
  pub status : ReplayStatus
  pub outbox_message_id : Option ℕ
  pub event_type : Option String
  pub replayed_at : Option String

-- `list(dict.fromkeys(dlq_ids))`
unfoldable pub unique_ids : List ℕ → List ℕ
unique_ids [] = []
unique_ids (id ∷ ids) = id ∷ where_rows (λ x. not (x == id)) (unique_ids ids)

abbrev pub letter_has_id : ℕ → OutboxDeadLetter → Bool
letter_has_id id d = d.id == id

abbrev pub letter_by_id : ℕ → Tables → Option OutboxDeadLetter
letter_by_id id t = find_row (letter_has_id id) t.dead_letters

abbrev pub message_by_id : ℕ → Tables → Option OutboxMessage
message_by_id id t = find_row (message_has_id id) t.outbox

abbrev pub reset_row : OutboxMessage → OutboxMessage
reset_row m = record m { published_at = none; publish_attempts = 0; last_error = none }

abbrev pub replayed_letter : OutboxDeadLetter → ℕ → OutboxDeadLetter
replayed_letter d now = record d { replayed_at = some now }

-- The row to publish again and its dead letter, written unless the run is dry.
unfoldable pub reset_for_replay : Bool → OutboxMessage → OutboxDeadLetter → ℕ → Exec (Unit {0})
reset_for_replay true m d now = pure tt
reset_for_replay false m d now = modify (λ t. record t {
  outbox = update_rows (message_has_id m.id) reset_row t.outbox;
  dead_letters = update_rows (letter_has_id d.id) (λ x. replayed_letter x now) t.dead_letters;
})

unfoldable pub replay_message : Bool → OutboxDeadLetter → Option OutboxMessage → Exec ReplayResult
unfolding reset_for_replay
replay_message dry_run d none = pure (record {
  dlq_id = d.id;
  status = outbox_missing;
  outbox_message_id = some d.outbox_message_id;
  event_type = some d.event_type;
  replayed_at = none;
})
replay_message dry_run d (some m) = do
  replay_ts ← now_utc
  reset_for_replay dry_run m d replay_ts
  host ← gets (λ s. s.host)
  pure (record {
    dlq_id = d.id;
    status = replayed;
    outbox_message_id = some m.id;
    event_type = some d.event_type;
    replayed_at = some (host.isoformat replay_ts);
  })

unfoldable pub replay_unless : Bool → OutboxDeadLetter → Option ℕ → Exec ReplayResult
unfolding replay_message
replay_unless dry_run d (some at) = do
  host ← gets (λ s. s.host)
  pure (record {
    dlq_id = d.id;
    status = already_replayed;
    outbox_message_id = some d.outbox_message_id;
    event_type = some d.event_type;
    replayed_at = some (host.isoformat at);
  })
replay_unless dry_run d none = do
  found ← select (message_by_id d.outbox_message_id)
  replay_message dry_run d found

unfoldable pub replay_letter : Bool → ℕ → Option OutboxDeadLetter → Exec ReplayResult
unfolding replay_unless
replay_letter dry_run id none = pure (record {
  dlq_id = id;
  status = not_found;
  outbox_message_id = none;
  event_type = none;
  replayed_at = none;
})
replay_letter dry_run id (some d) = replay_unless dry_run d d.replayed_at

-- The loop. Each number stands once in the list, so its row is as it was loaded.
unfoldable pub replay_each : Bool → List ℕ → Exec (List ReplayResult)
unfolding replay_letter
replay_each dry_run [] = pure []
replay_each dry_run (id ∷ ids) = do
  found ← select (letter_by_id id)
  result ← replay_letter dry_run id found
  results ← replay_each dry_run ids
  pure (result ∷ results)

-- What ends the transaction of a dry run.
unfoldable pub finish_replay : Bool → Exec (Unit {0})
finish_replay true = rollback
finish_replay false = pure tt

-- `replay_dead_letters`, in a session of its own.
unfoldable pub replay_dead_letters : Bool → List ℕ → Exec (List ReplayResult)
unfolding unique_ids replay_each finish_replay
replay_dead_letters dry_run [] = pure []
replay_dead_letters dry_run (id ∷ ids) = do
  results ← replay_each dry_run (unique_ids (id ∷ ids))
  finish_replay dry_run
  pure results
