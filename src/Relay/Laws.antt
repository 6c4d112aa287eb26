-- ===== src/Relay/Laws.antt =====
-- No message is lost: `poll_and_publish` of src/billing_platform/outbox_relay/publisher.py.
use saas_billing_entitlement.Prelude.{
  ℕ, ◌+◌, ◌≡◌, refl, Bool, true, inl, inr, Bool-cases, ◌&&◌, ◌||◌, not, ltb, leb, ◌==◌, Option,
  none, some, is_some, String, List, [], ◌∷◌, ◌++◌, arith, any, any-append, any-append_last,
  update_rows, All, All-map,
}
use saas_billing_entitlement.Prelude.Text.{str_eq, eq_iff, str_ℕ}
use saas_billing_entitlement.Db.Rows.{OutboxMessage, OutboxDeadLetter, Organization, Tables}
use saas_billing_entitlement.Db.Session.{Session}
use saas_billing_entitlement.Relay.Envelope.{
  resolve_topic, KafkaRecord, Sent, Broker, org_of_key, kafka_record,
}
use saas_billing_entitlement.Relay.Publish.{
  Relay, is_pending, message_has_id, claimable, claim_outbox_batch, failed_row, dead_letter,
  move_to_dead_letter, publish_envelope, count_failure, settle_row, relay_known, relay_rows,
  poll_and_publish,
}
use saas_billing_entitlement.Relay.Claims.{claim_outbox_batch-claimable}

-- The producer acknowledged the row on the topic of its event.
abbrev pub is_acknowledged : OutboxMessage → Sent → Bool
is_acknowledged m x =
    not (is_some x.answer)
    && (str_eq x.message.key (str_ℕ m.id) && str_eq x.message.topic (resolve_topic m.event_type))

abbrev pub is_dead_letter_of : OutboxMessage → OutboxDeadLetter → Bool
is_dead_letter_of m d = d.outbox_message_id == m.id

-- A row is still to be claimed, or was acknowledged, or stands among the dead letters.
abbrev pub is_accounted : ℕ → List Sent → List OutboxDeadLetter → OutboxMessage → Bool
is_accounted max_attempts log dead m =
    (is_pending m && ltb m.publish_attempts max_attempts)
    || (any (is_acknowledged m) log || any (is_dead_letter_of m) dead)

abbrev pub IsAccounted : ℕ → List Sent → Tables → Type 0
IsAccounted max_attempts log t =
    All (λ (m : OutboxMessage). is_accounted max_attempts log t.dead_letters m ≡ true) t.outbox

All-update :
    (P : OutboxMessage → Type 0) (q : OutboxMessage → Bool) (y : OutboxMessage)
    (rows : List OutboxMessage)
    → P y
    → All P rows
    → All P (update_rows q (λ _. y) rows)
All-update P q y [] p h = tt
All-update P q y (m ∷ rows) p h = elim (Bool-cases (q m)) [
  | inl hit ↦ rw hit (p, All-update P q y rows p h.1)
  | inr miss ↦ rw miss (h.0, All-update P q y rows p h.1)
]

accounted-sent :
    (max_attempts : ℕ) (log : List Sent) (dead : List OutboxDeadLetter) (x : Sent)
    (m : OutboxMessage)
    → is_accounted max_attempts log dead m ≡ true
    → is_accounted max_attempts (log ++ x ∷ []) dead m ≡ true
accounted-sent max_attempts log dead x m h = ground (arith, any-append (is_acknowledged m) log x)

accounted-dead :
    (max_attempts : ℕ) (log : List Sent) (dead : List OutboxDeadLetter) (d : OutboxDeadLetter)
    (m : OutboxMessage)
    → is_accounted max_attempts log dead m ≡ true
    → is_accounted max_attempts log (dead ++ d ∷ []) m ≡ true
accounted-dead max_attempts log dead d m h = ground (arith, any-append (is_dead_letter_of m) dead d)

count_failure-IsAccounted :
    (b : Broker) (max_attempts : ℕ) (m : OutboxMessage) (text org : String) (r : Relay)
    → is_pending m ≡ true
    → IsAccounted max_attempts r.sent r.session.tables
    → let r' = count_failure b max_attempts m text org r in
      IsAccounted max_attempts r'.sent r'.session.tables
unfolding count_failure move_to_dead_letter publish_envelope
count_failure-IsAccounted b max_attempts m text org r pending h =
    let d = dead_letter (failed_row m text) r.session.next_id r.session.transaction_time in
    let listed : any (is_dead_letter_of m) (r.session.tables.dead_letters ++ d ∷ []) ≡ true =
      any-append_last (is_dead_letter_of m) r.session.tables.dead_letters d (ground arith) in
    elim (Bool-cases (leb max_attempts (m.publish_attempts + 1))) [
      | inl last ↦ rw last (
          All-update _ (message_has_id m.id) _ _ (ground (arith, listed)) (
            All-map
              (λ x p.
                accounted-sent max_attempts r.sent _ _ x
                  (accounted-dead max_attempts r.sent r.session.tables.dead_letters d x p))
              r.session.tables.outbox h))
      | inr more ↦ rw more (All-update _ (message_has_id m.id) _ _ (ground arith) h)
    ]

settle_row-IsAccounted :
    (b : Broker) (max_attempts : ℕ) (m : OutboxMessage) (org : String) (message : KafkaRecord)
    (answer : Option String) (r : Relay)
    → is_pending m ≡ true
    → message.key ≡ str_ℕ m.id
    → message.topic ≡ resolve_topic m.event_type
    → IsAccounted max_attempts r.sent r.session.tables
    → let sent = r.sent ++ record { message = message; answer = answer } ∷ [] in
      let r' = settle_row b max_attempts m org answer (record r { sent = sent }) in
      IsAccounted max_attempts r'.sent r'.session.tables
unfolding settle_row
settle_row-IsAccounted b max_attempts m org message none r pending key topic h =
    let x : Sent = record { message = message; answer = none } in
    let acknowledged : is_acknowledged m x ≡ true =
      ground (arith, (eq_iff _ _).1 key, (eq_iff _ _).1 topic) in
    let there : any (is_acknowledged m) (r.sent ++ x ∷ []) ≡ true =
      any-append_last (is_acknowledged m) r.sent x acknowledged in
    All-update _ (message_has_id m.id) _ _ (ground (arith, there)) (
      All-map (λ y p. accounted-sent max_attempts r.sent r.session.tables.dead_letters x y p)
        r.session.tables.outbox h)
settle_row-IsAccounted b max_attempts m org message (some text) r pending key topic h =
    count_failure-IsAccounted b max_attempts m text org _ pending (
      All-map (λ y p. accounted-sent max_attempts r.sent r.session.tables.dead_letters _ y p)
        r.session.tables.outbox h)

relay_known-IsAccounted :
    (b : Broker) (max_attempts : ℕ) (m : OutboxMessage) (org : Option String) (r : Relay)
    → is_pending m ≡ true
    → IsAccounted max_attempts r.sent r.session.tables
    → let r' = relay_known b max_attempts m org r in
      IsAccounted max_attempts r'.sent r'.session.tables
unfolding relay_known publish_envelope kafka_record
relay_known-IsAccounted b max_attempts m none r pending h =
    count_failure-IsAccounted b max_attempts m _ "unknown" r pending h
relay_known-IsAccounted b max_attempts m (some org) r pending h =
    settle_row-IsAccounted b max_attempts m org _ _ r pending refl refl h

relay_rows-IsAccounted :
    (b : Broker) (max_attempts : ℕ) (orgs : List Organization) (rows : List OutboxMessage)
    (r : Relay)
    → All (λ (m : OutboxMessage). is_pending m ≡ true) rows
    → IsAccounted max_attempts r.sent r.session.tables
    → let r' = relay_rows b max_attempts orgs rows r in
      IsAccounted max_attempts r'.sent r'.session.tables
unfolding relay_rows
relay_rows-IsAccounted b max_attempts orgs [] r pending h = h
relay_rows-IsAccounted b max_attempts orgs (m ∷ rows) r pending h =
    relay_rows-IsAccounted b max_attempts orgs rows _ pending.1
      (relay_known-IsAccounted b max_attempts m (org_of_key orgs m.partition_key) r pending.0 h)

-- A poll loses no message, whatever the producer answers: if each row of the outbox is still to be
-- claimed, was acknowledged on the topic of its event, or stands among the dead letters, each is so
-- after the poll.
pub poll_and_publish-IsAccounted :
    (b : Broker) (locked : OutboxMessage → Bool) (limit max_attempts : ℕ) (log : List Sent)
    (s : Session)
    → IsAccounted max_attempts log s.tables
    → let r = poll_and_publish b locked limit max_attempts log s in
      IsAccounted max_attempts r.sent r.session.tables
unfolding poll_and_publish
poll_and_publish-IsAccounted b locked limit max_attempts log s h =
    relay_rows-IsAccounted b max_attempts s.tables.organizations
      (claim_outbox_batch locked limit max_attempts s.tables.outbox) _
      (All-map (λ m (free : claimable locked max_attempts m ≡ true). ground arith) _
        (claim_outbox_batch-claimable locked limit max_attempts s.tables.outbox))
      h
