-- ===== src/Relay/Ids.antt =====
-- Which rows the outbox has: src/billing_platform/services/outbox.py with
-- src/billing_platform/outbox_relay/publisher.py and src/billing_platform/outbox_relay/dlq_replay.py.
use saas_billing_entitlement.Prelude.{
  ℕ, ◌+◌, ◌≡◌, refl, ap, sym, ◌∙◌, Bool, false, Bool-cases, inl, inr, Option, none, some, String,
  List, [], ◌∷◌, ◌++◌, arith, leb, map, update_rows,
}
use saas_billing_entitlement.Db.Rows.{OutboxMessage, OutboxDeadLetter, Organization, Tables}
use saas_billing_entitlement.Db.Session.{Session}
use saas_billing_entitlement.Db.Keeps.{Keeps, keeps}
use saas_billing_entitlement.Outbox.{Fact, enqueue_outbox, is_enqueued, new_message}
use saas_billing_entitlement.Outbox.Laws.{outbox_after, enqueue_outbox_lem}
use saas_billing_entitlement.Relay.Envelope.{Sent, Broker, org_of_key}
use saas_billing_entitlement.Relay.Publish.{
  Relay, message_has_id, move_to_dead_letter, count_failure, settle_row, relay_known, relay_rows,
  claim_outbox_batch, poll_and_publish,
}
use saas_billing_entitlement.Relay.Again.{replay_each-tables}
use saas_billing_entitlement.Relay.Replay.{
  letter_by_id, finish_replay, reset_row, reset_for_replay, replay_message, replay_unless,
  replay_letter, replay_each, replay_dead_letters,
}

abbrev pub ids_of : List OutboxMessage → List ℕ
ids_of = map (λ (m : OutboxMessage). m.id)

abbrev pub message_ids : Tables → List ℕ
message_ids t = ids_of t.outbox

ids-update :
    (y : OutboxMessage) (rows : List OutboxMessage)
    → ids_of (update_rows (message_has_id y.id) (λ _. y) rows) ≡ ids_of rows
ids-update y [] = refl
ids-update y (m ∷ rows) = ground (arith, ids-update y rows)

ids-reset :
    (p : OutboxMessage → Bool) (rows : List OutboxMessage)
    → ids_of (update_rows p reset_row rows) ≡ ids_of rows
ids-reset p [] = refl
ids-reset p (m ∷ rows) = ground (arith, ids-reset p rows)

count_failure-ids :
    (b : Broker) (max_attempts : ℕ) (m : OutboxMessage) (text org : String) (r : Relay)
    → message_ids (count_failure b max_attempts m text org r).session.tables
      ≡ message_ids r.session.tables
unfolding count_failure move_to_dead_letter
count_failure-ids b max_attempts m text org r =
    elim (Bool-cases (leb max_attempts (m.publish_attempts + 1))) [
      | inl last ↦ rw last (ids-update _ r.session.tables.outbox)
      | inr more ↦ rw more (ids-update _ r.session.tables.outbox)
    ]

settle_row-ids :
    (b : Broker) (max_attempts : ℕ) (m : OutboxMessage) (org : String) (answer : Option String)
    (r : Relay)
    → message_ids (settle_row b max_attempts m org answer r).session.tables
      ≡ message_ids r.session.tables
unfolding settle_row
settle_row-ids b max_attempts m org none r = ids-update _ r.session.tables.outbox
settle_row-ids b max_attempts m org (some text) r = count_failure-ids b max_attempts m text org r

relay_known-ids :
    (b : Broker) (max_attempts : ℕ) (m : OutboxMessage) (org : Option String) (r : Relay)
    → message_ids (relay_known b max_attempts m org r).session.tables ≡ message_ids r.session.tables
unfolding relay_known
relay_known-ids b max_attempts m none r = count_failure-ids b max_attempts m _ "unknown" r
relay_known-ids b max_attempts m (some org) r = settle_row-ids b max_attempts m org _ _

relay_rows-ids :
    (b : Broker) (max_attempts : ℕ) (orgs : List Organization) (rows : List OutboxMessage)
    (r : Relay)
    → message_ids (relay_rows b max_attempts orgs rows r).session.tables
      ≡ message_ids r.session.tables
unfolding relay_rows
relay_rows-ids b max_attempts orgs [] r = refl
relay_rows-ids b max_attempts orgs (m ∷ rows) r =
    relay_rows-ids b max_attempts orgs rows _
    ∙ relay_known-ids b max_attempts m (org_of_key orgs m.partition_key) r

-- A poll removes no row and adds none.
pub poll-ids :
    (b : Broker) (locked : OutboxMessage → Bool) (limit max_attempts : ℕ) (log : List Sent)
    (s : Session)
    → message_ids (poll_and_publish b locked limit max_attempts log s).session.tables
      ≡ message_ids s.tables
unfolding poll_and_publish
poll-ids b locked limit max_attempts log s =
    relay_rows-ids b max_attempts s.tables.organizations
      (claim_outbox_batch locked limit max_attempts s.tables.outbox)
      (record { session = s; sent = log; published_count = 0 })

reset-Keeps :
    (m : OutboxMessage) (d : OutboxDeadLetter) (now : ℕ)
    → Keeps message_ids (reset_for_replay false m d now)
unfolding reset_for_replay
reset-Keeps m d now = record { at = λ s. ids-reset (message_has_id m.id) s.tables.outbox }

message-Keeps :
    (d : OutboxDeadLetter) (found : Option OutboxMessage)
    → Keeps message_ids (replay_message false d found)
unfolding replay_message
message-Keeps d none = search (keeps) depth 10
message-Keeps d (some m) = search (keeps, reset-Keeps) depth 10

unless-Keeps : (d : OutboxDeadLetter) (at : Option ℕ) → Keeps message_ids (replay_unless false d at)
unfolding replay_unless
unless-Keeps d none = search (keeps, message-Keeps) depth 10
unless-Keeps d (some at) = search (keeps) depth 10

letter-Keeps :
    (id : ℕ) (found : Option OutboxDeadLetter) → Keeps message_ids (replay_letter false id found)
unfolding replay_letter
letter-Keeps id none = search (keeps) depth 10
letter-Keeps id (some d) = unless-Keeps d d.replayed_at

each-Keeps : (ids : List ℕ) → Keeps message_ids (replay_each false ids)
unfolding replay_each
each-Keeps [] = search (keeps) depth 10
each-Keeps (id ∷ ids) = record {
  at = λ s.
      ap (λ (t : Session). message_ids t.tables) (replay_each-tables id ids s)
      ∙ (each-Keeps ids).at (replay_letter false id (letter_by_id id s.tables) s).1
      ∙ (letter-Keeps id (letter_by_id id s.tables)).at s;
}

-- A replay removes no row and adds none.
pub replay-Keeps : (ids : List ℕ) → Keeps message_ids (replay_dead_letters false ids)
unfolding replay_dead_letters finish_replay
replay-Keeps [] = search (keeps) depth 10
replay-Keeps (id ∷ ids) = search (keeps, each-Keeps) depth 10

ids-append :
    (rows : List OutboxMessage) (m : OutboxMessage)
    → ids_of (rows ++ m ∷ []) ≡ ids_of rows ++ m.id ∷ []
ids-append [] m = refl
ids-append (x ∷ rows) m = ap (λ (ids : List ℕ). x.id ∷ ids) (ids-append rows m)

pub append_nil : (ids : List ℕ) → ids ++ [] ≡ ids
append_nil [] = refl
append_nil (id ∷ ids) = ap (λ (rest : List ℕ). id ∷ rest) (append_nil ids)

pub append_assoc : (a b c : List ℕ) → (a ++ b) ++ c ≡ a ++ (b ++ c)
append_assoc [] b c = refl
append_assoc (id ∷ a) b c = ap (λ (rest : List ℕ). id ∷ rest) (append_assoc a b c)

-- Enqueuing removes no row.
pub enqueue-ids :
    (f : Fact) (s : Session)
    → (added : List ℕ) × (message_ids (enqueue_outbox f s).1.tables ≡ message_ids s.tables ++ added)
unfolding outbox_after
enqueue-ids f s = elim (Bool-cases (is_enqueued f.idempotency_key s.tables)) [
  | inl taken ↦ ([], rw (enqueue_outbox_lem, taken) (sym (append_nil (message_ids s.tables))))
  | inr free ↦ (
    s.next_id ∷ [],
    rw (enqueue_outbox_lem, free)
        (unfold new_message in
          ids-append s.tables.outbox (new_message f s.next_id s.transaction_time)),
  )
]
