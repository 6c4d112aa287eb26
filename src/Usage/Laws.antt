-- ===== src/Usage/Laws.antt =====
-- What the hours of src/billing_platform/services/usage.py add up to.
use saas_billing_entitlement.Prelude.{
  subst, find_row-append, find_row-holds, find_row-update_kept, update_rows-append,
  update_rows-twice, update_rows-absent, count-update_kept, find_row-count_rows, ℕ, ◌+◌, ◌≤◌, ◌≡◌,
  refl, ap, sym, ◌∙◌, true, Bool-cases, Option-cases, inl, inr, none, some, String, [], ◌∷◌, ◌++◌,
  arith, find_row, update_rows, count_rows, count_rows-append,
}
use saas_billing_entitlement.Prelude.Int.{ℤ}
use saas_billing_entitlement.Prelude.Text.{str_eq, eq_iff, eq_refl}
use saas_billing_entitlement.Db.Rows.{UsageAggregate, Tables}
use saas_billing_entitlement.Db.Session.{Session, ok}
use saas_billing_entitlement.Usage.{
  hour, normalize_hour_start, event_in, event_sum, is_bucket, set_quantity, aggregate_row,
  upsert_aggregate, aggregate_hour,
}

-- No hour of a feature has two rows.
abbrev pub HasUniqueHours : Tables → Type 0
HasUniqueHours t =
    (org : ℕ) (key : String) (start : ℕ)
    → count_rows (is_bucket org key start) t.usage_aggregates ≤ 1

-- The events of the hour.
abbrev pub hour_total : ℕ → String → ℕ → Tables → ℤ
hour_total org key start t = event_sum (event_in org key start (start + hour)) t.usage_events

new_hour :
    (new : UsageAggregate) (t : Tables)
    → find_row (is_bucket new.organization_id new.feature_key new.hour_start) t.usage_aggregates
      ≡ none
    → (org : ℕ) (key : String) (start : ℕ)
    → count_rows (is_bucket org key start) t.usage_aggregates ≤ 1
    → count_rows (is_bucket org key start) (t.usage_aggregates ++ new ∷ []) ≤ 1
new_hour new t absent org key start le =
    let rows = t.usage_aggregates in
    let sum = count_rows-append (is_bucket org key start) rows (new ∷ []) in
    elim (Bool-cases (is_bucket org key start new)) [
      | inr miss ↦ ground (arith, sum, miss, le)
      | inl hit ↦
          let zero =
            find_row-count_rows (is_bucket new.organization_id new.feature_key new.hour_start)
              (λ _. true) new rows absent in
          let same_org : new.organization_id ≡ org = ground (arith, hit) in
          let same_start : new.hour_start ≡ start = ground (arith, hit) in
          let same_text : str_eq new.feature_key key ≡ true = ground (arith, hit) in
          let same_key : new.feature_key ≡ key = (eq_iff new.feature_key key).0 same_text in
          let none_there : count_rows (is_bucket org key start) rows ≡ 0 =
            subst (λ o. count_rows (is_bucket o key start) rows ≡ 0) same_org
              (subst (λ k. count_rows (is_bucket new.organization_id k start) rows ≡ 0) same_key
                (subst (λ b. count_rows (is_bucket new.organization_id new.feature_key b) rows ≡ 0)
                  same_start zero)) in
          ground (arith, sum, none_there)
    ]

-- What an upsert leaves: the row holds its quantity, and no hour has two.
upsert-Stored :
    (new : UsageAggregate) (s : Session)
    → HasUniqueHours s.tables
    → let bucket = is_bucket new.organization_id new.feature_key new.hour_start in
      let (r, s') = upsert_aggregate new (find_row bucket s.tables.usage_aggregates) s in
      (x : UsageAggregate) × (r ≡ ok x)
      × (find_row bucket s'.tables.usage_aggregates ≡ some x)
      × (x.quantity ≡ new.quantity)
      × HasUniqueHours s'.tables
      × (update_rows bucket (set_quantity new.quantity) s'.tables.usage_aggregates
          ≡ s'.tables.usage_aggregates)
      × (s'
          ≡ record s { tables = record s.tables { usage_aggregates = s'.tables.usage_aggregates } })
unfolding upsert_aggregate
upsert-Stored new s unique =
    let bucket = is_bucket new.organization_id new.feature_key new.hour_start in
    let rows = s.tables.usage_aggregates in
    let itself : bucket new ≡ true = ground (arith, eq_refl new.feature_key) in
    elim (Option-cases (find_row bucket rows)) [
      | inl absent ↦ rw absent (
        new,
        refl,
        find_row-append bucket rows new absent ∙ rw itself refl,
        refl,
        λ org key start. new_hour new s.tables absent org key start (unique org key start),
        update_rows-append bucket (set_quantity new.quantity) rows (new ∷ [])
            ∙ rw (update_rows-absent bucket (set_quantity new.quantity) rows absent, itself) refl,
        refl,
      )
      | inr (old, there) ↦ rw there (
        set_quantity new.quantity old,
        refl,
        find_row-update_kept bucket bucket (set_quantity new.quantity) rows (λ x. refl)
            ∙ rw there (rw (find_row-holds bucket rows there) refl),
        refl,
        λ org key start.
            rw
              (count-update_kept (is_bucket org key start) bucket (set_quantity new.quantity) rows
                (λ x. refl))
              (unique org key start),
        update_rows-twice bucket (set_quantity new.quantity) rows (λ x. refl) (λ x. refl),
        refl,
      )
    ]

-- An hour that holds its sum is left as it is.
stored_hour :
    (org : ℕ) (key : String) (hour_start : ℕ) (s : Session) (x : UsageAggregate)
    → let start = normalize_hour_start hour_start in
      let total = hour_total org key start s.tables in
      find_row (is_bucket org key start) s.tables.usage_aggregates ≡ some x
      → x.quantity ≡ total
      → update_rows (is_bucket org key start) (set_quantity total) s.tables.usage_aggregates
        ≡ s.tables.usage_aggregates
      → ((aggregate_hour org key hour_start s).0 ≡ ok x)
        × ((aggregate_hour org key hour_start s).1.tables ≡ s.tables)
unfolding aggregate_hour upsert_aggregate
stored_hour org key hour_start s x there quantity same = rw there (
  ap (λ q. ok (set_quantity q x)) (sym quantity),
  ap (λ rows. record s.tables { usage_aggregates = rows }) same,
)

-- Aggregating an hour stores the sum of its events in the hour's only row, and doing so again changes
-- no table. No hour may have two rows before; none has then.
pub aggregate_hour-Stored :
    (org : ℕ) (key : String) (hour_start : ℕ) (s : Session)
    → HasUniqueHours s.tables
    → let start = normalize_hour_start hour_start in
      let (r, s') = aggregate_hour org key hour_start s in
      (x : UsageAggregate) × (r ≡ ok x)
      × (find_row (is_bucket org key start) s'.tables.usage_aggregates ≡ some x)
      × (x.quantity ≡ hour_total org key start s'.tables)
      × HasUniqueHours s'.tables
      × ((aggregate_hour org key hour_start s').0 ≡ ok x)
      × ((aggregate_hour org key hour_start s').1.tables ≡ s'.tables)
unfolding aggregate_hour
aggregate_hour-Stored org key hour_start s unique =
    let start = normalize_hour_start hour_start in
    let new =
      aggregate_row (s.host.uuid7 s.uuids) org key start (hour_total org key start s.tables) in
    let (x, done, there, quantity, unique', same, frame) =
      upsert-Stored new (record s { uuids = s.uuids + 1 }) unique in
    let s' = (aggregate_hour org key hour_start s).1 in
    let kept : hour_total org key start s'.tables ≡ hour_total org key start s.tables =
      ap (λ (t : Session). hour_total org key start t.tables) frame in
    let quantity' : x.quantity ≡ hour_total org key start s'.tables = quantity ∙ sym kept in
    let same' : update_rows (is_bucket org key start)
          (set_quantity (hour_total org key start s'.tables)) s'.tables.usage_aggregates
        ≡ s'.tables.usage_aggregates =
      subst
        (λ q.
          update_rows (is_bucket org key start) (set_quantity q) s'.tables.usage_aggregates
          ≡ s'.tables.usage_aggregates)
        (sym kept) same in
    let (again, tables) = stored_hour org key hour_start s' x there quantity' same' in
    (x, done, there, quantity', unique', again, tables)
