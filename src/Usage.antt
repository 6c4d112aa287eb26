-- ===== src/Usage.antt =====
-- Usage: src/billing_platform/services/usage.py. Quantities are counted in millionths.
pub mod Laws
pub mod Ingest
pub mod Once
use saas_billing_entitlement.Prelude.{
  ℕ, ◌+◌, ◌-◌, ◌*◌, ◌%◌, ◌==◌, ltb, leb, Bool, true, false, ◌&&◌, ◌||◌, not, Option, none, some,
  String, List, [], ◌∷◌, ◌++◌, map, if◌then◌else◌, any, where_rows, find_row, update_rows, length,
}
use saas_billing_entitlement.Prelude.Int.{ℤ, pos, ltb_ℤ, ◌+ℤ◌, ◌*ℤ◌}
use saas_billing_entitlement.Prelude.Text.{str_eq}
use saas_billing_entitlement.Db.Rows.{UsageEvent, UsageAggregate, Tables}
use saas_billing_entitlement.Db.Session.{
  Session, Exec, pure, raise, select, modify, new_uuid, now_utc, ◌>>=◌, ◌>>◌,
}

-- One hour, in microseconds.
abbrev pub hour : ℕ
hour = 3600000000

-- `_normalize_hour_start`: the minutes and what is below them are cut off.
unfoldable pub normalize_hour_start : ℕ → ℕ
normalize_hour_start t = t - t % hour

abbrev pub event_in : ℕ → String → ℕ → ℕ → UsageEvent → Bool
event_in org key from until e =
    e.organization_id == org
    && (str_eq e.feature_key key && (leb from e.recorded_at && ltb e.recorded_at until))

-- `SUM(quantity)` of the events that a test selects.
unfoldable pub event_sum : (UsageEvent → Bool) → List UsageEvent → ℤ
event_sum p [] = pos 0
event_sum p (e ∷ rest) = (if p e then e.quantity else pos 0) +ℤ event_sum p rest

abbrev pub is_bucket : ℕ → String → ℕ → UsageAggregate → Bool
is_bucket org key start x =
    x.organization_id == org && (str_eq x.feature_key key && x.hour_start == start)

abbrev pub set_quantity : ℤ → UsageAggregate → UsageAggregate
set_quantity quantity x = record x { quantity = quantity }

abbrev pub aggregate_row : String → ℕ → String → ℕ → ℤ → UsageAggregate
aggregate_row public_id org key start quantity = record {
  public_id = public_id;
  organization_id = org;
  feature_key = key;
  hour_start = start;
  quantity = quantity;
}

-- `INSERT ... ON CONFLICT DO UPDATE`: the row of the bucket, if there is one, gets the quantity.
unfoldable pub upsert_aggregate : UsageAggregate → Option UsageAggregate → Exec UsageAggregate
upsert_aggregate new none = do
  modify (λ t. record t { usage_aggregates = t.usage_aggregates ++ new ∷ [] })
  pure new
upsert_aggregate new (some old) = do
  modify (λ t. record t {
    usage_aggregates =
        update_rows (is_bucket new.organization_id new.feature_key new.hour_start)
          (set_quantity new.quantity) t.usage_aggregates;
  })
  pure (set_quantity new.quantity old)

-- `aggregate_hour`
unfoldable pub aggregate_hour : ℕ → String → ℕ → Exec UsageAggregate
unfolding normalize_hour_start event_sum upsert_aggregate
aggregate_hour org key hour_start = do
  total ← select (λ t.
      event_sum
        (event_in org key (normalize_hour_start hour_start)
          (normalize_hour_start hour_start + hour))
        t.usage_events)
  public_id ← new_uuid
  bucket ←
      select
        (λ t. find_row (is_bucket org key (normalize_hour_start hour_start)) t.usage_aggregates)
  upsert_aggregate (aggregate_row public_id org key (normalize_hour_start hour_start) total) bucket

-- The hours with an event in the window, each once.
pub record Bucket : Type 0 where
  pub organization_id : ℕ
  pub feature_key : String
  pub start : ℕ

abbrev pub bucket_of : UsageEvent → Bucket
bucket_of e = record {
  organization_id = e.organization_id;
  feature_key = e.feature_key;
  start = e.recorded_at - e.recorded_at % hour;
}

abbrev pub same_bucket : Bucket → Bucket → Bool
same_bucket a b =
    a.organization_id == b.organization_id
    && (str_eq a.feature_key b.feature_key && a.start == b.start)

-- `GROUP BY`
unfoldable pub group_buckets : List Bucket → List Bucket
group_buckets [] = []
group_buckets (b ∷ rest) = b ∷ where_rows (λ x. not (same_bucket b x)) (group_buckets rest)

unfoldable pub aggregate_each : List Bucket → Exec ℕ
unfolding aggregate_hour
aggregate_each [] = pure 0
aggregate_each (b ∷ rest) = do
  aggregate_hour b.organization_id b.feature_key b.start
  processed ← aggregate_each rest
  pure (processed + 1)

unfoldable pub pending_hours : ℕ → ℕ → List UsageEvent → List Bucket
unfolding group_buckets
pending_hours since reference events = group_buckets (
    map bucket_of (
      where_rows (λ (e : UsageEvent). leb since e.recorded_at && ltb e.recorded_at reference)
        events))

-- `aggregate_pending_hours`
unfoldable pub aggregate_pending_hours : ℕ → Option ℕ → Exec ℕ
unfolding aggregate_each pending_hours
aggregate_pending_hours lookback_hours now = do
  reference ← (elim now [ none ↦ now_utc | some t ↦ pure t ])
  buckets ← select (λ t. pending_hours (reference - lookback_hours * hour) reference t.usage_events)
  aggregate_each buckets

-- The sum of the hours of a feature that start in a period.
abbrev pub hour_in : ℕ → String → ℕ → ℕ → UsageAggregate → Bool
hour_in org key from until x =
    x.organization_id == org
    && (str_eq x.feature_key key && (leb from x.hour_start && ltb x.hour_start until))

unfoldable pub usage_sum : ℕ → String → ℕ → ℕ → List UsageAggregate → ℤ
usage_sum org key from until [] = pos 0
usage_sum org key from until (x ∷ rest) =
    (if hour_in org key from until x then x.quantity else pos 0)
    +ℤ usage_sum org key from until rest
