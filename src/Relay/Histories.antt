-- ===== src/Relay/Histories.antt =====
-- Any interleaving of enqueuing, polls and replays: src/billing_platform/services/outbox.py with
-- src/billing_platform/outbox_relay/publisher.py and src/billing_platform/outbox_relay/dlq_replay.py.
use saas_billing_entitlement.Prelude.{
  ℕ, ◌+◌, ◌<◌, ◌≡◌, refl, ap, sym, ◌∙◌, ◌++◌, subst, Bool, true, false, Bool-cases, inl, inr,
  Option, none, some, List, [], ◌∷◌, arith, any-update_kept, update_rows, All-map, All-append,
  All-update_rows,
}
use saas_billing_entitlement.Db.Rows.{OutboxMessage, OutboxDeadLetter}
use saas_billing_entitlement.Db.Session.{Session}
use saas_billing_entitlement.Outbox.{Fact, enqueue_outbox, is_enqueued, new_message}
use saas_billing_entitlement.Outbox.Laws.{outbox_after, enqueue_outbox_lem}
use saas_billing_entitlement.Relay.Envelope.{Sent, Broker}
use saas_billing_entitlement.Relay.Publish.{message_has_id, poll_and_publish}
use saas_billing_entitlement.Relay.Laws.{
  IsAccounted, is_accounted, is_dead_letter_of, poll_and_publish-IsAccounted,
}
use saas_billing_entitlement.Relay.Ids.{
  message_ids, enqueue-ids, poll-ids, replay-Keeps, append_nil, append_assoc,
}
use saas_billing_entitlement.Relay.Again.{replay_each-tables, replay_dead_letters-tables}
use saas_billing_entitlement.Relay.Replay.{
  unique_ids, letter_has_id, letter_by_id, message_by_id, reset_row, replayed_letter,
  reset_for_replay, replay_message, replay_unless, replay_letter, replay_each, replay_dead_letters,
}

-- What one transaction does to what was sent and to the session.
pub data Step (max_attempts : ℕ) : List Sent → Session → List Sent → Session → Type 0 where
  enqueued :
      {log : List Sent} {s : Session} (f : Fact)
      → Step max_attempts log s log (enqueue_outbox f s).1
  polled :
      {log : List Sent} {s : Session} (b : Broker) (locked : OutboxMessage → Bool) (limit : ℕ)
      → Step max_attempts log s
          (poll_and_publish b locked limit max_attempts log s).sent
          (poll_and_publish b locked limit max_attempts log s).session
  replayed_letters :
      {log : List Sent} {s : Session} (ids : List ℕ)
      → Step max_attempts log s log (replay_dead_letters false ids s).1

pub data Steps (max_attempts : ℕ) (log : List Sent) (s : Session)
    : List Sent → Session → Type 0 where
  start : Steps max_attempts log s log s
  then_step :
      {log1 log2 : List Sent} {s1 s2 : Session}
      → Steps max_attempts log s log1 s1
      → Step max_attempts log1 s1 log2 s2
      → Steps max_attempts log s log2 s2

module _ (max_attempts : ℕ) (log : List Sent) (positive : 0 < max_attempts) where
  enqueue-IsAccounted :
      (f : Fact) (s : Session)
      → IsAccounted max_attempts log s.tables
      → IsAccounted max_attempts log (enqueue_outbox f s).1.tables
  unfolding outbox_after new_message
  enqueue-IsAccounted f s h = elim (Bool-cases (is_enqueued f.idempotency_key s.tables)) [
    | inl taken ↦ rw (enqueue_outbox_lem, taken) h
    | inr free ↦
        rw (enqueue_outbox_lem, free)
          (All-append _ s.tables.outbox (new_message f s.next_id s.transaction_time) h
            (ground arith))
  ]

  reset_for_replay-IsAccounted :
      (m : OutboxMessage) (d : OutboxDeadLetter) (now : ℕ) (s : Session)
      → IsAccounted max_attempts log s.tables
      → IsAccounted max_attempts log (reset_for_replay false m d now s).1.tables
  unfolding reset_for_replay
  reset_for_replay-IsAccounted m d now s h =
      All-update_rows _ (message_has_id m.id) reset_row s.tables.outbox (λ x p. ground arith)
        (All-map
          {Q = λ x.
            is_accounted max_attempts log
              (update_rows (letter_has_id d.id) (λ y. replayed_letter y now) s.tables.dead_letters)
              x
            ≡ true}
          (λ x p.
            rw
              (any-update_kept (is_dead_letter_of x) (letter_has_id d.id)
                (λ y. replayed_letter y now) s.tables.dead_letters (λ y. refl))
              p)
          s.tables.outbox h)

  replay_message-IsAccounted :
      (d : OutboxDeadLetter) (found : Option OutboxMessage) (s : Session)
      → IsAccounted max_attempts log s.tables
      → IsAccounted max_attempts log (replay_message false d found s).1.tables
  unfolding replay_message
  replay_message-IsAccounted d none s h = h
  replay_message-IsAccounted d (some m) s h =
      reset_for_replay-IsAccounted m d (s.host.clock s.readings)
        (record s { readings = s.readings + 1 }) h

  replay_unless-IsAccounted :
      (d : OutboxDeadLetter) (at : Option ℕ) (s : Session)
      → IsAccounted max_attempts log s.tables
      → IsAccounted max_attempts log (replay_unless false d at s).1.tables
  unfolding replay_unless
  replay_unless-IsAccounted d (some at) s h = h
  replay_unless-IsAccounted d none s h =
      replay_message-IsAccounted d (message_by_id d.outbox_message_id s.tables) s h

  replay_letter-IsAccounted :
      (id : ℕ) (found : Option OutboxDeadLetter) (s : Session)
      → IsAccounted max_attempts log s.tables
      → IsAccounted max_attempts log (replay_letter false id found s).1.tables
  unfolding replay_letter
  replay_letter-IsAccounted id none s h = h
  replay_letter-IsAccounted id (some d) s h = replay_unless-IsAccounted d d.replayed_at s h

  replay_each-IsAccounted :
      (ids : List ℕ) (s : Session)
      → IsAccounted max_attempts log s.tables
      → IsAccounted max_attempts log (replay_each false ids s).1.tables
  unfolding replay_each
  replay_each-IsAccounted [] s h = h
  replay_each-IsAccounted (id ∷ ids) s h =
      subst (λ (t : Session). IsAccounted max_attempts log t.tables)
        (sym (replay_each-tables id ids s))
        (replay_each-IsAccounted ids _
          (replay_letter-IsAccounted id (letter_by_id id s.tables) s h))

  replay-IsAccounted :
      (ids : List ℕ) (s : Session)
      → IsAccounted max_attempts log s.tables
      → IsAccounted max_attempts log (replay_dead_letters false ids s).1.tables
  unfolding replay_dead_letters
  replay-IsAccounted [] s h = h
  replay-IsAccounted (id ∷ ids) s h =
      subst (λ (t : Session). IsAccounted max_attempts log t.tables)
        (sym (replay_dead_letters-tables id ids s))
        (replay_each-IsAccounted (unique_ids (id ∷ ids)) s h)

Step-IsAccounted :
    {max_attempts : ℕ} {log : List Sent} {s : Session} {log' : List Sent} {s' : Session}
    → 0 < max_attempts
    → Step max_attempts log s log' s'
    → IsAccounted max_attempts log s.tables
    → IsAccounted max_attempts log' s'.tables
Step-IsAccounted {max_attempts} {log} {s = s} positive (enqueued f) h =
    enqueue-IsAccounted max_attempts log positive f s h
Step-IsAccounted {max_attempts} {log} {s = s} positive (polled b locked limit) h =
    poll_and_publish-IsAccounted b locked limit max_attempts log s h
Step-IsAccounted {max_attempts} {log} {s = s} positive (replayed_letters ids) h =
    replay-IsAccounted max_attempts log positive ids s h

Step-ids :
    {max_attempts : ℕ} {log : List Sent} {s : Session} {log' : List Sent} {s' : Session}
    → Step max_attempts log s log' s'
    → (added : List ℕ) × (message_ids s'.tables ≡ message_ids s.tables ++ added)
Step-ids {s = s} (enqueued f) = enqueue-ids f s
Step-ids {max_attempts} {log} {s = s} (polled b locked limit) =
    ([], poll-ids b locked limit max_attempts log s ∙ sym (append_nil (message_ids s.tables)))
Step-ids {s = s} (replayed_letters ids) =
    ([], (replay-Keeps ids).at s ∙ sym (append_nil (message_ids s.tables)))

Steps-ids :
    {max_attempts : ℕ} {log : List Sent} {s : Session} {log' : List Sent} {s' : Session}
    → Steps max_attempts log s log' s'
    → (added : List ℕ) × (message_ids s'.tables ≡ message_ids s.tables ++ added)
Steps-ids {s = s} start = ([], sym (append_nil (message_ids s.tables)))
Steps-ids {s = s} (then_step {s1 = s1} steps step) =
    let (a, e) = Steps-ids steps in
    let (b, e') = Step-ids step in
    (a ++ b, e' ∙ ap (λ ids. ids ++ b) e ∙ append_assoc (message_ids s.tables) a b)

Steps-IsAccounted :
    {max_attempts : ℕ} {log : List Sent} {s : Session} {log' : List Sent} {s' : Session}
    → 0 < max_attempts
    → Steps max_attempts log s log' s'
    → IsAccounted max_attempts log s.tables
    → IsAccounted max_attempts log' s'.tables
Steps-IsAccounted positive start h = h
Steps-IsAccounted positive (then_step steps step) h =
    Step-IsAccounted positive step (Steps-IsAccounted positive steps h)

-- No message is ever lost, however enqueuing, polls and replays interleave and whatever the producer
-- answers. After any number of such steps the outbox still has the row of each message that it had, in
-- the same order, with those added by the steps after them. If each row was pending with attempts left,
-- acknowledged on the topic of its event, or among the dead letters, then each is so afterwards, the
-- rows included that the steps added. At least one attempt must be allowed.
pub outbox-IsAccounted :
    {max_attempts : ℕ} {log : List Sent} {s : Session} {log' : List Sent} {s' : Session}
    → 0 < max_attempts
    → Steps max_attempts log s log' s'
    → IsAccounted max_attempts log s.tables
    → ((added : List ℕ) × (message_ids s'.tables ≡ message_ids s.tables ++ added))
      × IsAccounted max_attempts log' s'.tables
outbox-IsAccounted positive steps h = (Steps-ids steps, Steps-IsAccounted positive steps h)
