-- ===== src/Relay/Claims.antt =====
-- Which rows a poll claims: `claim_outbox_batch` of src/billing_platform/outbox_relay/publisher.py.
use saas_billing_entitlement.Prelude.{
  ℕ, zero, suc, Bool-cases, ◌≤◌, ◌≡◌, refl, ◌⊎◌, inl, inr, ap, ◌∙◌, Bool, true, leb, List, [], ◌∷◌,
  ◌++◌, arith, length, take, where_rows, count_rows, All, All-map,
}
use saas_billing_entitlement.Db.Rows.{OutboxMessage}
use saas_billing_entitlement.Relay.Publish.{
  insert_by_age, order_by_age, claimable, claim_outbox_batch,
}

-- No row of the list is younger than a later one.
abbrev pub IsOrdered : List OutboxMessage → Type 0
IsOrdered [] = Unit
IsOrdered (m ∷ ms) = All (λ (x : OutboxMessage). m.created_at ≤ x.created_at) ms × IsOrdered ms

pub insert-All :
    (P : OutboxMessage → Type 0) (m : OutboxMessage) (ms : List OutboxMessage)
    → P m
    → All P ms
    → All P (insert_by_age m ms)
unfolding insert_by_age
insert-All P m [] p h = (p, tt)
insert-All P m (x ∷ ms) p h = elim (Bool-cases (leb m.created_at x.created_at)) [
  | inl older ↦ rw older (p, h)
  | inr younger ↦ rw younger (h.0, insert-All P m ms p h.1)
]

insert-IsOrdered :
    (m : OutboxMessage) (ms : List OutboxMessage) → IsOrdered ms → IsOrdered (insert_by_age m ms)
unfolding insert_by_age
insert-IsOrdered m [] h = (tt, tt)
insert-IsOrdered m (x ∷ ms) h = elim (Bool-cases (leb m.created_at x.created_at)) [
  | inl older ↦
      let le : m.created_at ≤ x.created_at = ground arith in
      rw older
        ((le, All-map (λ y (k : x.created_at ≤ y.created_at). omega (arith, le, k)) ms h.0), h)
  | inr younger ↦ rw younger (
    insert-All (λ y. x.created_at ≤ y.created_at) m ms (ground arith) h.0,
    insert-IsOrdered m ms h.1,
  )
]

order-IsOrdered : (ms : List OutboxMessage) → IsOrdered (order_by_age ms)
unfolding order_by_age
order-IsOrdered [] = tt
order-IsOrdered (m ∷ ms) = insert-IsOrdered m (order_by_age ms) (order-IsOrdered ms)

count-insert :
    (p : OutboxMessage → Bool) (m : OutboxMessage) (ms : List OutboxMessage)
    → count_rows p (insert_by_age m ms) ≡ count_rows p (m ∷ ms)
unfolding insert_by_age
count-insert p m [] = refl
count-insert p m (x ∷ ms) = ground (arith, count-insert p m ms)

count-order :
    (p : OutboxMessage → Bool) (ms : List OutboxMessage)
    → count_rows p (order_by_age ms) ≡ count_rows p ms
unfolding order_by_age
count-order p [] = refl
count-order p (m ∷ ms) = omega (arith, count-insert p m (order_by_age ms), count-order p ms)

-- What `take` leaves.
pub take-rest :
    (n : ℕ) (ms : List OutboxMessage)
    → (rest : List OutboxMessage) × (take n ms ++ rest ≡ ms)
      × (length (take n ms) ≤ n)
      × ((rest ≡ []) ⊎ (length (take n ms) ≡ n))
take-rest zero ms = (ms, refl, omega arith, inr refl)
take-rest (suc n) [] = ([], refl, omega arith, inl refl)
take-rest (suc n) (m ∷ ms) =
    let (rest, whole, le, full) = take-rest n ms in
    (
      rest,
      ap (λ xs. m ∷ xs) whole,
      omega (arith, le),
      elim full [ inl none_left ↦ inl none_left | inr same ↦ inr (omega (arith, same)) ],
    )

-- A claim holds at most `limit` rows. With the claimable rows that it leaves, it is all the claimable
-- rows: the pending ones with attempts left that no other replica holds; none that it leaves is older
-- than one that it takes, and it leaves some only if it is full.
pub claim_outbox_batch-oldest :
    (locked : OutboxMessage → Bool) (limit max_attempts : ℕ) (rows : List OutboxMessage)
    → let claim = claim_outbox_batch locked limit max_attempts rows in
      (rest : List OutboxMessage) × IsOrdered (claim ++ rest)
      × ((p : OutboxMessage → Bool)
          → count_rows p (claim ++ rest)
            ≡ count_rows p (where_rows (claimable locked max_attempts) rows))
      × (length claim ≤ limit)
      × ((rest ≡ []) ⊎ (length claim ≡ limit))
unfolding claim_outbox_batch
claim_outbox_batch-oldest locked limit max_attempts rows =
    let free = where_rows (claimable locked max_attempts) rows in
    let (rest, whole, le, full) = take-rest limit (order_by_age free) in
    (
      rest,
      rw whole (order-IsOrdered free),
      λ p. ap (count_rows p) whole ∙ count-order p free,
      le,
      full,
    )

All-where :
    (p : OutboxMessage → Bool) (rows : List OutboxMessage)
    → All (λ (m : OutboxMessage). p m ≡ true) (where_rows p rows)
All-where p [] = tt
All-where p (m ∷ rows) = elim (Bool-cases (p m)) [
  | inl hit ↦ rw hit (hit, All-where p rows)
  | inr miss ↦ rw miss (All-where p rows)
]

All-order :
    (P : OutboxMessage → Type 0) (rows : List OutboxMessage)
    → All P rows
    → All P (order_by_age rows)
unfolding order_by_age
All-order P [] h = tt
All-order P (m ∷ rows) h = insert-All P m (order_by_age rows) h.0 (All-order P rows h.1)

All-take :
    (P : OutboxMessage → Type 0) (n : ℕ) (rows : List OutboxMessage)
    → All P rows
    → All P (take n rows)
All-take P zero rows h = tt
All-take P (suc n) [] h = tt
All-take P (suc n) (m ∷ rows) h = (h.0, All-take P n rows h.1)

pub claim_outbox_batch-claimable :
    (locked : OutboxMessage → Bool) (limit max_attempts : ℕ) (rows : List OutboxMessage)
    → All
        (λ (m : OutboxMessage). claimable locked max_attempts m ≡ true)
        (claim_outbox_batch locked limit max_attempts rows)
unfolding claim_outbox_batch
claim_outbox_batch-claimable locked limit max_attempts rows =
    All-take _ limit _ (All-order _ _ (All-where (claimable locked max_attempts) rows))
