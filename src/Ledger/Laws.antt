-- ===== src/Ledger/Laws.antt =====
-- What the ledger of src/billing_platform/services/ledger.py guarantees.
use saas_billing_entitlement.Prelude.{
  ◌⊎◌, ℕ, ◌+◌, ◌≤◌, ◌≡◌, refl, ◌≢◌, ap, sym, ◌∙◌, Bool, true, any, inl, inr, none, some,
  Option-cases, is_some, String, List, [], ◌∷◌, ◌++◌, arith, if◌then◌else◌, All, All-map,
  All-append, count_rows, count_rows-append, find_row-append, any-eq_find_row, any-false_count,
}
use saas_billing_entitlement.Prelude.Int.{ℤ, pos, ◌+ℤ◌, int_laws}
use saas_billing_entitlement.Prelude.Text.{eq_iff, eq_refl, str_ℕ, ◌⧺◌}
use saas_billing_entitlement.Db.Rows.{LedgerEntry, OutboxMessage, Tables}
use saas_billing_entitlement.Db.Session.{Session, Result, ok, err, ledger_entry_not_found}
use saas_billing_entitlement.Outbox.{Fact, message_has_key, is_enqueued}
use saas_billing_entitlement.Outbox.Laws.{
  outbox_after, enqueue_outbox_lem, any-outbox_after_self, any-outbox_after,
}
use saas_billing_entitlement.Ledger.{
  Posting, post, reverse, post_unless, reverse_unless, reverse_found, insert_entry, posted_payload,
  entry_by_key, entry_by_id, entry_has_key, org_public_id, add_entry, posted_entry, reversal_entry,
}

-- The event that announces an entry.
abbrev pub event_key : LedgerEntry → String
event_key e = e.idempotency_key ⧺ ":ledger.entry_posted"

-- No idempotency key stands in the ledger twice, and the outbox holds the event of every entry.
pub record IsSound (t : Tables) : Type 0 where
  pub unique : (key : String) → count_rows (entry_has_key key) t.ledger ≤ 1
  pub announced : All (λ (e : LedgerEntry). is_enqueued (event_key e) t ≡ true) t.ledger

announcement : LedgerEntry → String → Session → Fact
announcement e org s = record {
  aggregate_type = "ledger";
  aggregate_id = e.public_id;
  event_type = "ledger.entry_posted";
  payload = posted_payload e org (add_entry e s.tables);
  idempotency_key = event_key e;
  partition_key = str_ℕ e.organization_id;
}

-- The session after an entry and its event are written.
inserted : LedgerEntry → String → Session → Session
unfolding announcement
inserted e org s =
    let s' : Session = record s { tables = add_entry e s.tables } in
    record s {
      tables = record s'.tables { outbox = outbox_after (announcement e org s) s' };
      next_id = s.next_id + 1;
    }

insert_entry-known :
    (e : LedgerEntry) (org : String) (s : Session)
    → org_public_id e.organization_id s.tables ≡ some org
    → insert_entry e s ≡ (ok e, inserted e org s)
unfolding insert_entry inserted
insert_entry-known e org s known = rw (known, enqueue_outbox_lem)

insert_entry-unknown :
    (e : LedgerEntry) (s : Session)
    → org_public_id e.organization_id s.tables ≡ none
    → (a : LedgerEntry) → (insert_entry e s).0 ≢ ok a
unfolding insert_entry
insert_entry-unknown e s unknown a = rw unknown (λ h. cc)

-- A fresh key keeps the keys unique.
count-fresh :
    (key : String) (e : LedgerEntry) (t : Tables)
    → entry_by_key e.idempotency_key t ≡ none
    → count_rows (entry_has_key key) t.ledger ≤ 1
    → count_rows (entry_has_key key) (t.ledger ++ e ∷ []) ≤ 1
count-fresh key e t fresh h = ground (
  arith,
  count_rows-append (entry_has_key key) t.ledger (e ∷ []),
  eq_iff e.idempotency_key key,
  any-eq_find_row (entry_has_key e.idempotency_key) t.ledger,
  any-false_count (entry_has_key e.idempotency_key) t.ledger,
)

inserted-IsSound :
    (e : LedgerEntry) (org : String) (s : Session)
    → entry_by_key e.idempotency_key s.tables ≡ none
    → IsSound s.tables
    → IsSound (inserted e org s).tables
unfolding inserted
inserted-IsSound e org s fresh h =
    let s' : Session = record s { tables = add_entry e s.tables } in
    record {
      unique = λ key. count-fresh key e s.tables fresh (h.unique key);
      announced =
          All-append _ s.tables.ledger e
            (All-map
              (λ x p. any-outbox_after (announcement e org s) s' (message_has_key (event_key x)) p)
              s.tables.ledger h.announced)
            (any-outbox_after_self (announcement e org s) s');
    }

-- The session after an identity and a UUID are drawn, and the row that `post` then makes.
abbrev drawn : Session → Session
drawn s = record s { next_id = s.next_id + 1; uuids = s.uuids + 1 }

abbrev pub entry_of : Posting → Session → LedgerEntry
entry_of p s = posted_entry p s.next_id (s.host.uuid7 s.uuids) (s.host.upper p.currency)

pub post-existing :
    (p : Posting) (s : Session) {e : LedgerEntry}
    → entry_by_key p.idempotency_key s.tables ≡ some e
    → post p s ≡ (ok e, s)
unfolding post
post-existing p s h = rw h

post-fresh :
    (p : Posting) (s : Session) (org : String)
    → entry_by_key p.idempotency_key s.tables ≡ none
    → org_public_id p.organization_id s.tables ≡ some org
    → post p s ≡ (ok (entry_of p s), inserted (entry_of p s) org (drawn s))
unfolding post post_unless
post-fresh p s org fresh known = rw fresh (insert_entry-known (entry_of p s) org (drawn s) known)

-- What a successful call of `post` or `reverse` has written under a key.
pub record Written (key : String) (t : Tables) (e : LedgerEntry) (t' : Tables) : Type 0 where
  pub sound : IsSound t'
  pub stored : entry_by_key key t' ≡ some e
  pub appended : t'.ledger ≡ (if is_some (entry_by_key key t) then t.ledger else t.ledger ++ e ∷ [])

inserted-Written :
    (e : LedgerEntry) (org : String) (s : Session)
    → entry_by_key e.idempotency_key s.tables ≡ none
    → IsSound s.tables
    → Written e.idempotency_key s.tables e (inserted e org s).tables
inserted-Written e org s fresh h = record {
  sound = inserted-IsSound e org s fresh h;
  stored =
      unfold inserted in
      (find_row-append (entry_has_key e.idempotency_key) s.tables.ledger e fresh
        ∙ rw (eq_refl e.idempotency_key) refl);
  appended = unfold inserted in rw fresh refl;
}

-- For a known organization `post` succeeds: the row under the key is returned and stored, the
-- ledger is unchanged if the key was there and else has that row appended, keys stay unique, and
-- the outbox holds the event of every entry. This is for tables in which no ledger key stands twice
-- and every entry's event is in the outbox.
pub post-Written :
    (p : Posting) (s : Session) (org : String)
    → IsSound s.tables
    → org_public_id p.organization_id s.tables ≡ some org
    → (e : LedgerEntry) × ((post p s).0 ≡ ok e)
      × Written p.idempotency_key s.tables e (post p s).1.tables
post-Written p s org h known = elim (Option-cases (entry_by_key p.idempotency_key s.tables)) [
  | inl fresh ↦ (
    entry_of p s,
    ap (λ (r : Result LedgerEntry × Session). r.0) (post-fresh p s org fresh known),
    rw (post-fresh p s org fresh known) (inserted-Written (entry_of p s) org (drawn s) fresh h),
  )
  | inr (e, there) ↦ (
    e,
    ap (λ (r : Result LedgerEntry × Session). r.0) (post-existing p s there),
    rw (post-existing p s there) (record { sound = h; stored = there; appended = rw there refl }),
  )
]

-- Under a key that the ledger does not hold, a posting writes its own row and keeps every message.
pub post-fresh_Written :
    (p : Posting) (s : Session) (org : String)
    → IsSound s.tables
    → entry_by_key p.idempotency_key s.tables ≡ none
    → org_public_id p.organization_id s.tables ≡ some org
    → ((post p s).0 ≡ ok (entry_of p s))
      × Written p.idempotency_key s.tables (entry_of p s) (post p s).1.tables
      × ((q : OutboxMessage → Bool)
          → any q s.tables.outbox ≡ true
          → any q (post p s).1.tables.outbox ≡ true)
post-fresh_Written p s org h fresh known = rw (post-fresh p s org fresh known) (
  refl,
  inserted-Written (entry_of p s) org (drawn s) fresh h,
  λ q there.
      unfold inserted in
      let s' : Session = record (drawn s) { tables = add_entry (entry_of p s) s.tables } in
      any-outbox_after (announcement (entry_of p s) org (drawn s)) s' q there,
)

-- The row that a posting returns was there under its key, or has its type, amount and owner.
pub post-Stands :
    (p : Posting) (s : Session) (org : String)
    → IsSound s.tables
    → org_public_id p.organization_id s.tables ≡ some org
    → (e : LedgerEntry) × ((post p s).0 ≡ ok e)
      × Written p.idempotency_key s.tables e (post p s).1.tables
      × ((entry_by_key p.idempotency_key s.tables ≡ some e)
          ⊎ ((e.entry_type ≡ p.entry_type)
              × (e.amount_cents ≡ p.amount_cents)
              × (e.subscription_id ≡ p.subscription_id)))
post-Stands p s org h known = elim (Option-cases (entry_by_key p.idempotency_key s.tables)) [
  | inl fresh ↦
      let (done, written, _) = post-fresh_Written p s org h fresh known in
      (entry_of p s, done, written, inr (refl, refl, refl))
  | inr (e, there) ↦ (
    e,
    ap (λ (r : Result LedgerEntry × Session). r.0) (post-existing p s there),
    rw (post-existing p s there) (record { sound = h; stored = there; appended = rw there refl }),
    inl there,
  )
]

ok-injective : {a b : LedgerEntry} → ok a ≡ ok b → a ≡ b
ok-injective h = cc

-- Once a posting has succeeded, every later one under its key, whatever else it says, returns the
-- same entry and changes nothing. This is for tables in which no ledger key stands twice and every
-- entry's event is in the outbox, and a known organization.
pub post_again :
    (p q : Posting) (s : Session) (e : LedgerEntry) (org : String)
    → IsSound s.tables
    → org_public_id p.organization_id s.tables ≡ some org
    → (post p s).0 ≡ ok e
    → q.idempotency_key ≡ p.idempotency_key
    → post q (post p s).1 ≡ (ok e, (post p s).1)
post_again p q s e org h known done same =
    let (e', returned, w) = post-Written p s org h known in
    post-existing q (post p s).1 (rw same (w.stored ∙ ap some (ok-injective (sym returned ∙ done))))

reverse-fresh :
    (id : ℕ) (key correlation_id : String) (s : Session) (original : LedgerEntry) (org : String)
    → entry_by_id id s.tables ≡ some original
    → entry_by_key key s.tables ≡ none
    → org_public_id original.organization_id s.tables ≡ some org
    → let e = reversal_entry original s.next_id (s.host.uuid7 s.uuids) key correlation_id in
      reverse id key correlation_id s ≡ (ok e, inserted e org (drawn s))
unfolding reverse reverse_found reverse_unless
reverse-fresh id key correlation_id s original org found fresh known = rw found (
    rw fresh (
      insert_entry-known
        (reversal_entry original s.next_id (s.host.uuid7 s.uuids) key correlation_id) org (drawn s)
        known))

-- The sum of the amounts in the ledger.
pub balance : List LedgerEntry → ℤ
balance [] = pos 0
balance (e ∷ rest) = e.amount_cents +ℤ balance rest

balance-append :
    (xs : List LedgerEntry) (e : LedgerEntry)
    → balance (xs ++ e ∷ []) ≡ balance xs +ℤ e.amount_cents
unfolding balance
balance-append [] e = omega int_laws
balance-append (x ∷ xs) e = rw (balance-append xs e) (omega int_laws)

-- Reversing a known entry under a fresh key appends one entry that names it and has the opposite
-- amount, so the balance of the ledger falls by the original amount; every earlier entry stays, the
-- keys stay unique and the new entry's event is in the outbox. This is for tables in which no
-- ledger key stands twice and every entry's event is in the outbox, and a known organization.
pub reverse_cancels :
    (id : ℕ) (key correlation_id : String) (s : Session) (original : LedgerEntry) (org : String)
    → IsSound s.tables
    → entry_by_id id s.tables ≡ some original
    → entry_by_key key s.tables ≡ none
    → org_public_id original.organization_id s.tables ≡ some org
    → (e : LedgerEntry) × ((reverse id key correlation_id s).0 ≡ ok e)
      × (e.reverses_entry_id ≡ some original.id)
      × (e.amount_cents +ℤ original.amount_cents ≡ pos 0)
      × (balance (reverse id key correlation_id s).1.tables.ledger +ℤ original.amount_cents
          ≡ balance s.tables.ledger)
      × Written key s.tables e (reverse id key correlation_id s).1.tables
reverse_cancels id key correlation_id s original org h found fresh known =
    let e = reversal_entry original s.next_id (s.host.uuid7 s.uuids) key correlation_id in
    let run = reverse-fresh id key correlation_id s original org found fresh known in
    (
      e,
      ap (λ (r : Result LedgerEntry × Session). r.0) run,
      refl,
      omega int_laws,
      rw run (unfold inserted in rw (balance-append s.tables.ledger e) (omega int_laws)),
      rw run (inserted-Written e org (drawn s) fresh h),
    )

-- Reversing an unknown entry raises and changes nothing, and so does not even look at the key.
pub reverse_unknown :
    (id : ℕ) (key correlation_id : String) (s : Session)
    → entry_by_id id s.tables ≡ none
    → reverse id key correlation_id s ≡ (err ledger_entry_not_found, s)
unfolding reverse reverse_found
reverse_unknown id key correlation_id s h = rw h

-- What a ledger call cannot touch: all but the ledger, the outbox and the supply of identities.
abbrev pub besides_ledger : Session → Session
besides_ledger s = record s {
  tables = record s.tables { ledger = []; outbox = [] };
  next_id = 0;
  uuids = 0;
}

insert_entry-frame :
    (e : LedgerEntry) (s : Session) → besides_ledger (insert_entry e s).1 ≡ besides_ledger s
unfolding insert_entry
insert_entry-frame e s = elim (Option-cases (org_public_id e.organization_id s.tables)) [
  | inl unknown ↦ rw unknown refl
  | inr (org, known) ↦ rw (insert_entry-known e org s known) (unfold inserted in refl)
]

-- A posting touches the ledger, the outbox and the supply of identities alone.
pub post-frame : (p : Posting) (s : Session) → besides_ledger (post p s).1 ≡ besides_ledger s
unfolding post post_unless
post-frame p s = elim (Option-cases (entry_by_key p.idempotency_key s.tables)) [
  | inl fresh ↦ rw fresh (insert_entry-frame (entry_of p s) (drawn s))
  | inr (e, there) ↦ rw there refl
]
