-- ===== src/Usage/Once.antt =====
-- Each usage event is stored once: src/billing_platform/services/usage.py.
use saas_billing_entitlement.Prelude.{
  length-append, ℕ, ◌+◌, ◌≤◌, ◌==◌, ◌≡◌, refl, ap, sym, subst, ◌∙◌, Bool, true, false, Bool-cases,
  Option-cases, inl, inr, ◌||◌, is_some, String, List, [], ◌∷◌, ◌++◌, arith, any, any-false_count,
  any-eq_find_row, find_row, length, count_rows, count_rows-append,
}
use saas_billing_entitlement.Prelude.Text.{str_eq, eq_iff, eq_refl}
use saas_billing_entitlement.Db.Rows.{UsageEvent, Tables}
use saas_billing_entitlement.Db.Session.{Host, Session, ok}
use saas_billing_entitlement.Usage.Ingest.{
  UsageEventIn, UsageBatchResult, is_event_of, new_events, draw_events, public_ids_of,
  ingest_usage_batch,
}

-- No organization has two events under one key.
abbrev pub HasUniqueKeys : Tables → Type 0
HasUniqueKeys t = (org : ℕ) (key : String) → count_rows (is_event_of org key) t.usage_events ≤ 1

abbrev pub has_event_key : String → UsageEventIn → Bool
has_event_key key e = str_eq e.idempotency_key key

other_way : (a b : String) → str_eq a b ≡ false → str_eq b a ≡ false
other_way a b h = elim (Bool-cases (str_eq b a)) [
  | inr miss ↦ miss
  | inl hit ↦ let there : str_eq a b ≡ true = (eq_iff a b).1 (sym ((eq_iff b a).0 hit)) in cc
]

-- The rows that the loop collects: keys that are neither stored nor pending, each once.
module _ (host : Host) (org default_at : ℕ) (stored : String → Bool) where
  fresh_apart :
      (key new : String) (pending : List String)
      → stored key || any (str_eq key) pending ≡ true
      → stored new || any (str_eq new) pending ≡ false
      → str_eq new key ≡ false
  fresh_apart key new pending h fresh = elim (Bool-cases (str_eq new key)) [
    | inr miss ↦ miss
    | inl hit ↦
        let there : stored new || any (str_eq new) pending ≡ true =
          subst (λ k. stored k || any (str_eq k) pending ≡ true) (sym ((eq_iff new key).0 hit)) h in
        cc
  ]

  count-pending :
      (key : String) (pending : List String) (n : ℕ) (events : List UsageEventIn)
      → stored key || any (str_eq key) pending ≡ true
      → count_rows (is_event_of org key) (new_events host org default_at stored pending n events)
        ≡ 0
  unfolding new_events
  count-pending key pending n [] h = refl
  count-pending key pending n (e ∷ events) h =
      elim (Bool-cases (stored e.idempotency_key || any (str_eq e.idempotency_key) pending)) [
        | inl skipped ↦ rw skipped (count-pending key pending n events h)
        | inr fresh ↦
            let more : stored key || (str_eq key e.idempotency_key || any (str_eq key) pending)
                ≡ true =
              ground (arith, h) in
            let rest = count-pending key (e.idempotency_key ∷ pending) (n + 1) events more in
            let other : str_eq e.idempotency_key key ≡ false =
              fresh_apart key e.idempotency_key pending h fresh in
            rw fresh (ground (arith, rest, other))
      ]

  count-new :
      (key : String) (pending : List String) (n : ℕ) (events : List UsageEventIn)
      → count_rows (is_event_of org key) (new_events host org default_at stored pending n events)
        ≤ 1
  unfolding new_events
  count-new key pending n [] = omega arith
  count-new key pending n (e ∷ events) =
      elim (Bool-cases (stored e.idempotency_key || any (str_eq e.idempotency_key) pending)) [
        | inl skipped ↦ rw skipped (count-new key pending n events)
        | inr fresh ↦ rw fresh (elim (Bool-cases (str_eq e.idempotency_key key)) [
          | inr miss ↦
              ground (arith, miss, count-new key (e.idempotency_key ∷ pending) (n + 1) events)
          | inl hit ↦
              let itself : str_eq key e.idempotency_key ≡ true =
                (eq_iff key e.idempotency_key).1 (sym ((eq_iff e.idempotency_key key).0 hit)) in
              let more : stored key || (str_eq key e.idempotency_key || any (str_eq key) pending)
                  ≡ true =
                ground (arith, itself) in
              ground
                (arith, hit, count-pending key (e.idempotency_key ∷ pending) (n + 1) events more)
        ])
      ]

  count-elsewhere :
      (other : ℕ) (key : String) (pending : List String) (n : ℕ) (events : List UsageEventIn)
      → org == other ≡ false
      → count_rows (is_event_of other key) (new_events host org default_at stored pending n events)
        ≡ 0
  unfolding new_events
  count-elsewhere other key pending n [] h = refl
  count-elsewhere other key pending n (e ∷ events) h =
      elim (Bool-cases (stored e.idempotency_key || any (str_eq e.idempotency_key) pending)) [
        | inl skipped ↦ rw skipped (count-elsewhere other key pending n events h)
        | inr fresh ↦ rw fresh (
            ground
              (arith, h, count-elsewhere other key (e.idempotency_key ∷ pending) (n + 1) events h))
      ]

  length-new :
      (pending : List String) (n : ℕ) (events : List UsageEventIn)
      → length (new_events host org default_at stored pending n events) ≤ length events
  unfolding new_events
  length-new pending n [] = omega arith
  length-new pending n (e ∷ events) =
      elim (Bool-cases (stored e.idempotency_key || any (str_eq e.idempotency_key) pending)) [
        | inl skipped ↦ rw skipped (omega (arith, length-new pending n events))
        | inr fresh ↦
            rw fresh (omega (arith, length-new (e.idempotency_key ∷ pending) (n + 1) events))
      ]

  -- Every event's key is stored, pending, or among the new rows.
  covers :
      (key : String) (pending : List String) (n : ℕ) (events : List UsageEventIn)
      → any (has_event_key key) events ≡ true
      → (stored key || any (str_eq key) pending)
          || any (is_event_of org key) (new_events host org default_at stored pending n events)
        ≡ true
  unfolding new_events
  covers key pending n [] h = cc
  covers key pending n (e ∷ events) h =
      elim (Bool-cases (stored e.idempotency_key || any (str_eq e.idempotency_key) pending)) [
        | inl skipped ↦ rw skipped (elim (Bool-cases (str_eq e.idempotency_key key)) [
          | inr miss ↦ covers key pending n events (ground (arith, h, miss))
          | inl hit ↦
              let there : stored key || any (str_eq key) pending ≡ true =
                subst (λ k. stored k || any (str_eq k) pending ≡ true)
                  ((eq_iff e.idempotency_key key).0 hit) skipped in
              ground (arith, there)
        ])
        | inr fresh ↦ rw fresh (elim (Bool-cases (str_eq e.idempotency_key key)) [
          | inl hit ↦ ground (arith, hit)
          | inr miss ↦
              let apart : str_eq key e.idempotency_key ≡ false =
                other_way e.idempotency_key key miss in
              ground (
                arith,
                miss,
                apart,
                covers key (e.idempotency_key ∷ pending) (n + 1) events (ground (arith, h, miss)),
              )
        ])
      ]

any-append_or {ℓ} :
    {A : Type ℓ} (p : A → Bool) (xs ys : List A) → any p (xs ++ ys) ≡ any p xs || any p ys
any-append_or p [] ys = refl
any-append_or p (x ∷ xs) ys = ground (arith, any-append_or p xs ys)

-- The answer has one identity for each event, where each event's key is stored.
public_ids_of-total :
    (org : ℕ) (events : List UsageEventIn) (rows : List UsageEvent) (s : Session)
    → ((key : String)
        → any (has_event_key key) events ≡ true
        → any (is_event_of org key) rows ≡ true)
    → (ids : List String) × (public_ids_of org events rows s ≡ (ok ids, s))
      × (length ids ≡ length events)
unfolding public_ids_of
public_ids_of-total org [] rows s h = ([], refl, refl)
public_ids_of-total org (e ∷ events) rows s h =
    let (ids, done, same) =
      public_ids_of-total org events rows s (λ key k. h key (ground (arith, k))) in
    let there : any (is_event_of org e.idempotency_key) rows ≡ true =
      h e.idempotency_key (ground (arith, eq_refl e.idempotency_key)) in
    elim (Option-cases (find_row (is_event_of org e.idempotency_key) rows)) [
      | inl absent ↦
          let gone : any (is_event_of org e.idempotency_key) rows ≡ false =
            any-eq_find_row (is_event_of org e.idempotency_key) rows ∙ ap is_some absent in
          let absurd : ⊥ = cc in elim absurd [ ]
      | inr (row, found) ↦ rw (found, done) (row.public_id ∷ ids, refl, omega (arith, same))
    ]

-- The keys after the insertion of the collected rows.
module _ (host : Host) (org default_at n : ℕ) (events : List UsageEventIn) (t : Tables)
    (unique : HasUniqueKeys t) where
  abbrev stored_key : String → Bool
  stored_key key = any (is_event_of org key) t.usage_events

  abbrev collected : List UsageEvent
  collected = new_events host org default_at stored_key [] n events

  keys_here : (key : String) → count_rows (is_event_of org key) (t.usage_events ++ collected) ≤ 1
  keys_here key =
      let sum = count_rows-append (is_event_of org key) t.usage_events collected in
      elim (Bool-cases (stored_key key)) [
        | inl taken ↦
            let old : stored_key key || any (str_eq key) [] ≡ true = ground (arith, taken) in
            omega (
              arith,
              sum,
              unique org key,
              count-pending host org default_at stored_key key [] n events old,
            )
        | inr free ↦ omega (
          arith,
          sum,
          any-false_count (is_event_of org key) t.usage_events free,
          count-new host org default_at stored_key key [] n events,
        )
      ]

  keys_after :
      (other : ℕ) (key : String)
      → count_rows (is_event_of other key) (t.usage_events ++ collected) ≤ 1
  keys_after other key =
      let sum = count_rows-append (is_event_of other key) t.usage_events collected in
      elim (Bool-cases (org == other)) [
        | inr apart ↦ omega (
          arith,
          sum,
          unique other key,
          count-elsewhere host org default_at stored_key other key [] n events apart,
        )
        | inl hit ↦
            let same : org ≡ other = ground (arith, hit) in
            subst (λ o. count_rows (is_event_of o key) (t.usage_events ++ collected) ≤ 1) same
              (keys_here key)
      ]

  found_after :
      (key : String)
      → any (has_event_key key) events ≡ true
      → any (is_event_of org key) (t.usage_events ++ collected) ≡ true
  found_after key h =
      let covered = covers host org default_at stored_key key [] n events h in
      any-append_or (is_event_of org key) t.usage_events collected ∙ ground (arith, covered)

-- Ingesting a batch succeeds and stores each event once: if no organization had two events under one
-- key, none has then, each key of the batch is stored, the accepted events are those that the table has
-- more, the others are duplicates, and each event is answered with an identity.
pub ingest_usage_batch-HasUniqueKeys :
    (org : ℕ) (events : List UsageEventIn) (s : Session)
    → HasUniqueKeys s.tables
    → let (result, s') = ingest_usage_batch org events s in
      (r : UsageBatchResult) × (result ≡ ok r)
      × HasUniqueKeys s'.tables
      × ((key : String)
          → any (has_event_key key) events ≡ true
          → any (is_event_of org key) s'.tables.usage_events ≡ true)
      × (length s'.tables.usage_events ≡ length s.tables.usage_events + r.accepted)
      × (r.accepted + r.duplicates ≡ length events)
      × (length r.public_ids ≡ length events)
unfolding ingest_usage_batch draw_events
ingest_usage_batch-HasUniqueKeys org events s unique =
    let now = s.host.clock s.readings in
    let stored : String → Bool = λ key. any (is_event_of org key) s.tables.usage_events in
    let rows = new_events s.host org now stored [] s.uuids events in
    let all = s.tables.usage_events ++ rows in
    let found = found_after s.host org now s.uuids events s.tables unique in
    let t : Session = record s {
      tables = record s.tables { usage_events = all };
      uuids = s.uuids + length rows;
      readings = s.readings + 1;
    } in
    let (ids, done, same) = public_ids_of-total org events all t found in
    let fewer = length-new s.host org now stored [] s.uuids events in
    rw done (
      _,
      refl,
      keys_after s.host org now s.uuids events s.tables unique,
      found,
      length-append s.tables.usage_events rows,
      omega (arith, fewer),
      same,
    )
