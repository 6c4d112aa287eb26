-- ===== src/Relay/Again.antt =====
-- Replaying dead letters again: src/billing_platform/outbox_relay/dlq_replay.py.
use saas_billing_entitlement.Prelude.{
  ℕ, ◌≡◌, refl, ap, sym, subst, ◌∙◌, Bool, true, false, Option-cases, inl, inr, ◌||◌, not, Option,
  none, some, is_some, List, [], ◌∷◌, arith, if◌then◌else◌, find_row-holds, update_rows,
  find_row-update_kept, All,
}
use saas_billing_entitlement.Db.Rows.{OutboxMessage, OutboxDeadLetter, Tables}
use saas_billing_entitlement.Db.Session.{Session, Result, ok}
use saas_billing_entitlement.Relay.Publish.{message_has_id}
use saas_billing_entitlement.Relay.Replay.{
  ReplayResult, unique_ids, letter_has_id, letter_by_id, message_by_id, reset_row, replayed_letter,
  reset_for_replay, replay_message, replay_unless, replay_letter, replay_each, finish_replay,
  replay_dead_letters,
}

-- There is nothing to replay under a number: no dead letter, one replayed, or one without its row.
abbrev is_closed : Tables → Option OutboxDeadLetter → Bool
is_closed t none = true
is_closed t (some d) = is_some d.replayed_at || not (is_some (message_by_id d.outbox_message_id t))

abbrev IsClosed : Tables → ℕ → Type 0
IsClosed t id = is_closed t (letter_by_id id t) ≡ true

-- The tables after a row and its dead letter are reset.
abbrev reset_tables : ℕ → ℕ → ℕ → Tables → Tables
reset_tables message letter now t = record t {
  outbox = update_rows (message_has_id message) reset_row t.outbox;
  dead_letters = update_rows (letter_has_id letter) (λ x. replayed_letter x now) t.dead_letters;
}

message-reset :
    (message letter now id : ℕ) (t : Tables)
    → is_some (message_by_id id (reset_tables message letter now t)) ≡ is_some (message_by_id id t)
message-reset message letter now id t = elim (Option-cases (message_by_id id t)) [
  | inl absent ↦
      rw
        (
          find_row-update_kept (message_has_id id) (message_has_id message) reset_row t.outbox
              (λ x. refl),
          absent,
        )
        refl
  | inr (m, there) ↦
      rw
        (
          find_row-update_kept (message_has_id id) (message_has_id message) reset_row t.outbox
              (λ x. refl),
          there,
        )
        refl
]

letter-reset :
    (message letter now id : ℕ) (t : Tables)
    → letter_by_id id (reset_tables message letter now t) ≡ elim (letter_by_id id t) [
      | none ↦ none
      | some d ↦ some (if letter_has_id letter d then replayed_letter d now else d)
    ]
letter-reset message letter now id t =
    find_row-update_kept (letter_has_id id) (letter_has_id letter) (λ x. replayed_letter x now)
      t.dead_letters (λ x. refl)

reset-IsClosed :
    (message letter now id : ℕ) (t : Tables)
    → IsClosed t id
    → IsClosed (reset_tables message letter now t) id
reset-IsClosed message letter now id t h = elim (Option-cases (letter_by_id id t)) [
  | inl absent ↦ rw (letter-reset message letter now id t, absent) refl
  | inr (d, there) ↦
      let same = message-reset message letter now d.outbox_message_id t in
      let closed : is_closed t (some d) ≡ true = subst (λ o. is_closed t o ≡ true) there h in
      rw (letter-reset message letter now id t, there) (ground (arith, same, closed))
]

reset_closes :
    (message letter now : ℕ) (t : Tables) → IsClosed (reset_tables message letter now t) letter
reset_closes message letter now t = elim (Option-cases (letter_by_id letter t)) [
  | inl absent ↦ rw (letter-reset message letter now letter t, absent) refl
  | inr (d, there) ↦
      let hit : letter_has_id letter d ≡ true =
        find_row-holds (letter_has_id letter) t.dead_letters there in
      rw (letter-reset message letter now letter t, there, hit) refl
]

-- What a step leaves: its number is closed, and no closed one is opened.
abbrev Closes : ℕ → Session → Result ReplayResult × Session → Type 0
Closes id s r =
    (result : ReplayResult) × (r.0 ≡ ok result)
    × IsClosed r.1.tables id
    × ((other : ℕ) → IsClosed s.tables other → IsClosed r.1.tables other)

replay_message-Closes :
    (d : OutboxDeadLetter) (s : Session)
    → letter_by_id d.id s.tables ≡ some d
    → (found : Option OutboxMessage) → message_by_id d.outbox_message_id s.tables ≡ found
    → Closes d.id s (replay_message false d found s)
unfolding replay_message reset_for_replay
replay_message-Closes d s there none missing =
    (_, refl, rw (there, missing) (ground arith), λ other h. h)
replay_message-Closes d s there (some m) found =
    let now = s.host.clock s.readings in
    (
      _,
      refl,
      reset_closes m.id d.id now s.tables,
      λ other h. reset-IsClosed m.id d.id now other s.tables h,
    )

replay_unless-Closes :
    (d : OutboxDeadLetter) (s : Session)
    → letter_by_id d.id s.tables ≡ some d
    → (at : Option ℕ) → d.replayed_at ≡ at
    → Closes d.id s (replay_unless false d at s)
unfolding replay_unless
replay_unless-Closes d s there (some at) done = (_, refl, rw (there, done) refl, λ other h. h)
replay_unless-Closes d s there none open' =
    replay_message-Closes d s there (message_by_id d.outbox_message_id s.tables) refl

replay_letter-Closes :
    (id : ℕ) (s : Session) → Closes id s (replay_letter false id (letter_by_id id s.tables) s)
unfolding replay_letter
replay_letter-Closes id s = elim (Option-cases (letter_by_id id s.tables)) [
  | inl absent ↦ rw absent (_, refl, rw absent refl, λ other h. h)
  | inr (d, there) ↦
      let same : d.id ≡ id =
        ground (arith, find_row-holds (letter_has_id id) s.tables.dead_letters there) in
      subst (λ o. Closes id s (replay_letter false id o s)) (sym there)
        (subst (λ i. Closes i s (replay_unless false d d.replayed_at s)) same
          (replay_unless-Closes d s (subst (λ i. letter_by_id i s.tables ≡ some d) (sym same) there)
            d.replayed_at refl))
]

-- A closed number is left alone.
replay_unless-closed :
    (d : OutboxDeadLetter) (s : Session) (at : Option ℕ)
    → d.replayed_at ≡ at
    → is_closed s.tables (some d) ≡ true
    → (result : ReplayResult) × (replay_unless false d at s ≡ (ok result, s))
unfolding replay_unless replay_message
replay_unless-closed d s (some at) done h = (_, refl)
replay_unless-closed d s none open' h =
    elim (Option-cases (message_by_id d.outbox_message_id s.tables)) [
      | inl missing ↦ rw missing (_, refl)
      | inr (m, found) ↦
          let shut : is_closed s.tables (some d) ≡ false = rw (open', found) refl in
          let absurd : ⊥ = cc in elim absurd [ ]
    ]

closed_letter :
    (id : ℕ) (s : Session)
    → IsClosed s.tables id
    → (result : ReplayResult) × (replay_letter false id (letter_by_id id s.tables) s
        ≡ (ok result, s))
unfolding replay_letter
closed_letter id s h = elim (Option-cases (letter_by_id id s.tables)) [
  | inl absent ↦ rw absent (_, refl)
  | inr (d, there) ↦
      subst (λ o. (result : ReplayResult) × (replay_letter false id o s ≡ (ok result, s)))
        (sym there)
        (replay_unless-closed d s d.replayed_at refl
          (subst (λ o. is_closed s.tables o ≡ true) there h))
]

-- The loop closes every number.
abbrev ClosesAll : List ℕ → Session → Result (List ReplayResult) × Session → Type 0
ClosesAll ids s r =
    (results : List ReplayResult) × (r.0 ≡ ok results)
    × All (IsClosed r.1.tables) ids
    × ((other : ℕ) → IsClosed s.tables other → IsClosed r.1.tables other)

replay_each-closes : (ids : List ℕ) (s : Session) → ClosesAll ids s (replay_each false ids s)
unfolding replay_each
replay_each-closes [] s = ([], refl, tt, λ other h. h)
replay_each-closes (id ∷ ids) s =
    let (result, done, closed, kept) = replay_letter-Closes id s in
    let s1 = (replay_letter false id (letter_by_id id s.tables) s).1 in
    let (results, done', closed', kept') = replay_each-closes ids s1 in
    let run : replay_each false (id ∷ ids) s
        ≡ (ok (result ∷ results), (replay_each false ids s1).1) =
      rw (done, done') refl in
    subst (ClosesAll (id ∷ ids) s) (sym run)
      (result ∷ results, refl, (kept' id closed, closed'), λ other h. kept' other (kept other h))

replay_each_closed :
    (ids : List ℕ) (s : Session)
    → All (IsClosed s.tables) ids
    → (results : List ReplayResult) × (replay_each false ids s ≡ (ok results, s))
unfolding replay_each
replay_each_closed [] s h = ([], refl)
replay_each_closed (id ∷ ids) s h =
    let (result, same) = closed_letter id s h.0 in
    let (results, same') = replay_each_closed ids s h.1 in rw (same, same') (result ∷ results, refl)

-- What a replay of some numbers is, by its loop.
replay-run :
    (dry_run : Bool) (id : ℕ) (ids : List ℕ) (s : Session) {results : List ReplayResult}
    → dry_run ≡ false
    → (replay_each dry_run (unique_ids (id ∷ ids)) s).0 ≡ ok results
    → replay_dead_letters dry_run (id ∷ ids) s
      ≡ (ok results, (replay_each dry_run (unique_ids (id ∷ ids)) s).1)
unfolding replay_dead_letters finish_replay
replay-run false id ids s wet done = rw done refl
replay-run true id ids s wet done = cc

-- The loop's tables are those of its steps, and so are the replay's.
pub replay_each-tables :
    (id : ℕ) (ids : List ℕ) (s : Session)
    → (replay_each false (id ∷ ids) s).1
      ≡ (replay_each false ids (replay_letter false id (letter_by_id id s.tables) s).1).1
unfolding replay_each
replay_each-tables id ids s =
    let (result, done, closed, kept) = replay_letter-Closes id s in
    let s1 = (replay_letter false id (letter_by_id id s.tables) s).1 in
    let (results, done', closed', kept') = replay_each-closes ids s1 in rw (done, done') refl

pub replay_dead_letters-tables :
    (id : ℕ) (ids : List ℕ) (s : Session)
    → (replay_dead_letters false (id ∷ ids) s).1 ≡ (replay_each false (unique_ids (id ∷ ids)) s).1
replay_dead_letters-tables id ids s =
    let (results, done, closed, kept) = replay_each-closes (unique_ids (id ∷ ids)) s in
    ap (λ (r : Result (List ReplayResult) × Session). r.1) (replay-run false id ids s refl done)

-- Replaying twice.
abbrev Again : List ℕ → Session → Result (List ReplayResult) × Session → Type 0
Again ids s r =
    (results : List ReplayResult) × (r.0 ≡ ok results)
    × (again : List ReplayResult) × (replay_dead_letters false ids r.1 ≡ (ok again, r.1))

-- Replaying dead letters never raises, and replaying the same numbers again changes nothing: neither
-- the outbox nor the dead letters, nor any other part of the session.
pub replay_dead_letters-again :
    (ids : List ℕ) (s : Session)
    → let (r, s') = replay_dead_letters false ids s in
      (results : List ReplayResult) × (r ≡ ok results)
      × (again : List ReplayResult) × (replay_dead_letters false ids s' ≡ (ok again, s'))
unfolding replay_dead_letters
replay_dead_letters-again [] s = ([], refl, [], refl)
replay_dead_letters-again (id ∷ ids) s =
    let all = unique_ids (id ∷ ids) in
    let (results, done, closed, kept) = replay_each-closes all s in
    let s1 = (replay_each false all s).1 in
    let (again, same) = replay_each_closed all s1 closed in
    let done' : (replay_each false all s1).0 ≡ ok again = rw same refl in
    let left : (replay_each false all s1).1 ≡ s1 = rw same refl in
    subst (Again (id ∷ ids) s) (sym (replay-run false id ids s refl done))
      (results, refl, again, replay-run false id ids s1 refl done' ∙ ap (λ t. (ok again, t)) left)
