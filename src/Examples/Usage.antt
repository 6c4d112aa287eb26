-- ===== src/Examples/Usage.antt =====
-- Usage and the close of a period at the example database.
use saas_billing_entitlement.Usage.Once.{
  HasUniqueKeys, has_event_key, ingest_usage_batch-HasUniqueKeys,
}
use saas_billing_entitlement.Usage.Ingest.{
  UsageEventIn, UsageBatchResult, is_event_of, ingest_usage_batch,
}
use saas_billing_entitlement.Prelude.{
  none, List, true, any, length, ℕ, ◌+◌, ◌*◌, ◌≡◌, refl, some, String, [], ◌∷◌, arith, find_row,
}
use saas_billing_entitlement.Prelude.Int.{pos, ◌+ℤ◌}
use saas_billing_entitlement.Db.Rows.{UsageEvent, UsageAggregate, Price}
use saas_billing_entitlement.Db.Session.{Session, ok}
use saas_billing_entitlement.Ledger.Laws.{IsSound}
use saas_billing_entitlement.Invoices.{line_sum}
use saas_billing_entitlement.Invoices.Totals.{HasTotals}
use saas_billing_entitlement.Subscriptions.{newest_of}
use saas_billing_entitlement.Usage.{hour, normalize_hour_start, is_bucket, aggregate_hour}
use saas_billing_entitlement.Usage.Laws.{HasUniqueHours, hour_total, aggregate_hour-Stored}
use saas_billing_entitlement.PeriodClose.{Period, PeriodCloseResult, close_billing_period}
use saas_billing_entitlement.PeriodClose.Charging.{Closed}
use saas_billing_entitlement.PeriodClose.Closing.{usage_cost, IsFresh, close_billing_period-Closed}
use saas_billing_entitlement.Examples.Data.{session, session-IsSound, price_row, current}

abbrev usage_event : String → ℕ → UsageEvent
usage_event id recorded_at = record {
  public_id = id;
  organization_id = 1;
  feature_key = "api_calls";
  quantity = pos 2000000;
  recorded_at = recorded_at;
  idempotency_key = id;
}

abbrev hour_row : ℕ → ℕ → UsageAggregate
hour_row start units = record {
  public_id = "hour";
  organization_id = 1;
  feature_key = "api_calls";
  hour_start = start;
  quantity = pos (units * 1000000);
}

abbrev metered : Price
metered = record (price_row "price-3" "plan-basic" 3) {
  pricing_model = "per_unit";
  metered_feature_key = some "api_calls";
}

abbrev used : Session
used = record session {
  tables = record session.tables {
    prices = metered ∷ session.tables.prices;
    usage_events = usage_event "u1" 100 ∷ usage_event "u2" 200 ∷ [];
    usage_aggregates = hour_row 0 1 ∷ hour_row hour 7 ∷ [];
  };
}

used-HasUniqueHours : HasUniqueHours used.tables
used-HasUniqueHours org key start = ground arith

aggregate_hour-Stored_example :
    let start = normalize_hour_start 150 in
    let (r, s') = aggregate_hour 1 "api_calls" 150 used in
    (x : UsageAggregate) × (r ≡ ok x)
    × (find_row (is_bucket 1 "api_calls" start) s'.tables.usage_aggregates ≡ some x)
    × (x.quantity ≡ hour_total 1 "api_calls" start s'.tables)
    × HasUniqueHours s'.tables
    × ((aggregate_hour 1 "api_calls" 150 s').0 ≡ ok x)
    × ((aggregate_hour 1 "api_calls" 150 s').1.tables ≡ s'.tables)
aggregate_hour-Stored_example = aggregate_hour-Stored 1 "api_calls" 150 used used-HasUniqueHours

abbrev january : Period
january = record {
  organization_id = 1;
  period_start = 0;
  period_end = hour + hour;
  idempotency_key = "close-1";
}

used-HasTotals : HasTotals used.tables
unfolding line_sum ◌+ℤ◌
used-HasTotals = (refl, (refl, tt))

used-IsFresh : IsFresh used.next_id used.tables
unfolding line_sum ◌+ℤ◌
used-IsFresh = (refl, refl)

used-IsSound : IsSound used.tables
used-IsSound = record { unique = session-IsSound.unique; announced = session-IsSound.announced }

close_billing_period-Closed_example :
    let (result, s') = close_billing_period [] january used in
    (r : PeriodCloseResult) × (result ≡ ok r)
    × Closed january (usage_cost january current used.tables) used.tables r s'.tables
unfolding newest_of
close_billing_period-Closed_example =
    close_billing_period-Closed january current used "org-acme" refl refl used-IsFresh
      used-HasTotals used-IsSound refl refl

-- A batch with a new event, a stored one, and a repetition.
abbrev usage_input : String → UsageEventIn
usage_input key = record {
  feature_key = "api_calls";
  quantity = pos 1;
  idempotency_key = key;
  recorded_at = none;
}

abbrev batch : List UsageEventIn
batch = usage_input "u3" ∷ usage_input "u1" ∷ usage_input "u3" ∷ []

abbrev once_used : Session
once_used = record used { tables = record used.tables { usage_events = usage_event "u1" 100 ∷ [] } }

once_used-HasUniqueKeys : HasUniqueKeys once_used.tables
once_used-HasUniqueKeys org key = ground arith

ingest_usage_batch-HasUniqueKeys_example :
    let (result, s') = ingest_usage_batch 1 batch once_used in
    (r : UsageBatchResult) × (result ≡ ok r)
    × HasUniqueKeys s'.tables
    × ((key : String)
        → any (has_event_key key) batch ≡ true
        → any (is_event_of 1 key) s'.tables.usage_events ≡ true)
    × (length s'.tables.usage_events ≡ 1 + r.accepted)
    × (r.accepted + r.duplicates ≡ 3)
    × (length r.public_ids ≡ 3)
ingest_usage_batch-HasUniqueKeys_example =
    ingest_usage_batch-HasUniqueKeys 1 batch once_used once_used-HasUniqueKeys
