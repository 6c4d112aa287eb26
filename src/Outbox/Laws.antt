-- ===== src/Outbox/Laws.antt =====
-- What the outbox of src/billing_platform/services/outbox.py guarantees.
use saas_billing_entitlement.Prelude.{
  ℕ, ◌+◌, ◌≤◌, ◌≡◌, refl, ◌≢◌, ap, Bool, true, false, Bool-cases, inl, inr, none, String, List, [],
  ◌∷◌, ◌++◌, arith, if◌then◌else◌, any, count_rows, count_rows-append, any-false_count,
  any-true_count, any-append_last, any-append,
}
use saas_billing_entitlement.Prelude.Text.{str_eq, eq_iff, eq_refl}
use saas_billing_entitlement.Db.Json.{Dict, get}
use saas_billing_entitlement.Db.Rows.{OutboxMessage, Tables}
use saas_billing_entitlement.Db.Session.{Session, Result, ok}
use saas_billing_entitlement.Outbox.{
  Fact, is_forbidden, sanitize_payload, message_has_key, is_enqueued, new_message, add_message,
  enqueue, enqueue_outbox,
}

-- A call that found the key free, and one that found it taken.
enqueue-free :
    (f : Fact) (s : Session)
    → is_enqueued f.idempotency_key s.tables ≡ false
    → enqueue f s ≡ (
      ok s.next_id,
      record s {
        tables = add_message (new_message f s.next_id s.transaction_time) s.tables;
        next_id = s.next_id + 1;
      },
    )
unfolding enqueue
enqueue-free f s free = rw free

enqueue-taken :
    (f : Fact) (s : Session)
    → is_enqueued f.idempotency_key s.tables ≡ true
    → enqueue f s ≡ (ok 0, record s { next_id = s.next_id + 1 })
unfolding enqueue
enqueue-taken f s taken = rw taken

-- How often a key stands in the outbox.
abbrev pub key_count : String → Tables → ℕ
key_count key t = count_rows (message_has_key key) t.outbox

key_count-add :
    (key : String) (f : Fact) (id time : ℕ) (t : Tables)
    → key_count key (add_message (new_message f id time) t)
      ≡ key_count key t + (if str_eq f.idempotency_key key then 1 else 0)
unfolding new_message
key_count-add key f id time t =
    omega (arith, count_rows-append (message_has_key key) t.outbox (new_message f id time ∷ []))

-- No key stands in the outbox twice.
abbrev pub HasUniqueKeys : Tables → Type 0
HasUniqueKeys t = (key : String) → key_count key t ≤ 1

-- After a call the fact's key stands in the outbox, exactly once if keys were unique; keys are still
-- unique, and every other key stands there as often as before.
pub enqueue_once :
    (f : Fact) (s : Session)
    → HasUniqueKeys s.tables
    → let s' = (enqueue f s).1 in
      HasUniqueKeys s'.tables
      × (key_count f.idempotency_key s'.tables ≡ 1)
      × ((key : String)
          → key ≢ f.idempotency_key
          → key_count key s'.tables ≡ key_count key s.tables)
enqueue_once f s u = elim (Bool-cases (is_enqueued f.idempotency_key s.tables)) [
  | inl taken ↦ rw (enqueue-taken f s taken) (
    u,
    omega (
      arith,
      u f.idempotency_key,
      any-true_count (message_has_key f.idempotency_key) s.tables.outbox taken,
    ),
    λ key ne. refl,
  )
  | inr free ↦ rw (enqueue-free f s free) (
    λ key. ground (
      arith,
      u key,
      eq_iff f.idempotency_key key,
      key_count-add key f s.next_id s.transaction_time s.tables,
      any-false_count (message_has_key f.idempotency_key) s.tables.outbox free,
    ),
    ground (
      arith,
      eq_refl f.idempotency_key,
      key_count-add f.idempotency_key f s.next_id s.transaction_time s.tables,
      any-false_count (message_has_key f.idempotency_key) s.tables.outbox free,
    ),
    λ key ne. ground (
      arith,
      eq_iff f.idempotency_key key,
      key_count-add key f s.next_id s.transaction_time s.tables,
    ),
  )
]

is_enqueued-add :
    (f : Fact) (id time : ℕ) (t : Tables)
    → is_enqueued f.idempotency_key (add_message (new_message f id time) t) ≡ true
unfolding new_message
is_enqueued-add f id time t =
    any-append_last (message_has_key f.idempotency_key) t.outbox (new_message f id time)
      (eq_refl f.idempotency_key)

-- Enqueueing the same fact again changes no table and answers 0.
pub enqueue_again :
    (f : Fact) (s : Session)
    → let s' = (enqueue f s).1 in ((enqueue f s').0 ≡ ok 0) × ((enqueue f s').1.tables ≡ s'.tables)
enqueue_again f s = elim (Bool-cases (is_enqueued f.idempotency_key s.tables)) [
  | inl taken ↦ rw (enqueue-taken f s taken) (
      let s' : Session = record s { next_id = s.next_id + 1 } in
      (
        ap (λ (r : Result ℕ × Session). r.0) (enqueue-taken f s' taken),
        ap (λ (r : Result ℕ × Session). r.1.tables) (enqueue-taken f s' taken),
      ))
  | inr free ↦ rw (enqueue-free f s free) (
      let s' : Session = record s {
        tables = add_message (new_message f s.next_id s.transaction_time) s.tables;
        next_id = s.next_id + 1;
      } in
      let taken = is_enqueued-add f s.next_id s.transaction_time s.tables in
      (
        ap (λ (r : Result ℕ × Session). r.0) (enqueue-taken f s' taken),
        ap (λ (r : Result ℕ × Session). r.1.tables) (enqueue-taken f s' taken),
      ))
]

-- At its top level a sanitized payload has neither internal identity, and answers every other key as the payload does.
pub get-sanitize_payload :
    (key : String) (payload : Dict)
    → get key (sanitize_payload payload) ≡ (if is_forbidden key then none else get key payload)
unfolding get sanitize_payload
get-sanitize_payload key [] = ground arith
get-sanitize_payload key ((k, v) ∷ rest) =
    ground (arith, eq_iff key k, get-sanitize_payload key rest)

-- The outbox after a call.
unfoldable pub outbox_after : Fact → Session → List OutboxMessage
outbox_after f s =
    if is_enqueued f.idempotency_key s.tables
    then s.tables.outbox
    else s.tables.outbox ++ new_message f s.next_id s.transaction_time ∷ []

-- `enqueue_outbox` never raises; it changes the outbox alone.
pub enqueue_outbox_lem :
    (f : Fact) (s : Session)
    → enqueue_outbox f s ≡ (
      ok tt,
      record s { tables = record s.tables { outbox = outbox_after f s }; next_id = s.next_id + 1 },
    )
unfolding enqueue_outbox outbox_after
enqueue_outbox_lem f s = elim (Bool-cases (is_enqueued f.idempotency_key s.tables)) [
  | inl taken ↦ rw taken
  | inr free ↦ rw free
]

module _ (f : Fact) (s : Session) where
  pub any-outbox_after_self : any (message_has_key f.idempotency_key) (outbox_after f s) ≡ true
  unfolding outbox_after
  any-outbox_after_self = elim (Bool-cases (is_enqueued f.idempotency_key s.tables)) [
    | inl taken ↦ rw taken taken
    | inr free ↦ rw free (is_enqueued-add f s.next_id s.transaction_time s.tables)
  ]

  pub any-outbox_after :
      (p : OutboxMessage → Bool) → any p s.tables.outbox ≡ true → any p (outbox_after f s) ≡ true
  unfolding outbox_after
  any-outbox_after p h = elim (Bool-cases (is_enqueued f.idempotency_key s.tables)) [
    | inl taken ↦ rw taken h
    | inr free ↦ rw free (any-append p s.tables.outbox _ h)
  ]
