-- ===== src/Usage/Ingest.antt =====
-- Ingesting a batch of events: `ingest_usage_batch` of src/billing_platform/services/usage.py. No other
-- transaction is at work, so that `ON CONFLICT DO NOTHING` finds no conflict: the keys were just looked up.
use saas_billing_entitlement.Prelude.{
  ℕ, ◌+◌, ◌-◌, ◌==◌, Bool, ◌&&◌, ◌||◌, Option, none, some, String, List, [], ◌∷◌, ◌++◌,
  if◌then◌else◌, any, find_row, length,
}
use saas_billing_entitlement.Prelude.Int.{ℤ, pos, ◌*ℤ◌}
use saas_billing_entitlement.Prelude.Text.{str_eq}
use saas_billing_entitlement.Db.Rows.{UsageEvent}
use saas_billing_entitlement.Db.Session.{
  Host, key_error, ok, Exec, pure, select, or_raise, modify, now_utc, ◌>>=◌, ◌>>◌,
}

pub record UsageEventIn : Type 0 where
  pub feature_key : String
  pub quantity : ℤ
  pub idempotency_key : String
  pub recorded_at : Option ℕ

pub record UsageBatchResult : Type 0 where
  pub accepted : ℕ
  pub duplicates : ℕ
  pub public_ids : List String

abbrev pub is_event_of : ℕ → String → UsageEvent → Bool
is_event_of org key e = e.organization_id == org && str_eq e.idempotency_key key

abbrev instant_of : Option ℕ → ℕ → ℕ
instant_of none default_at = default_at
instant_of (some t) default_at = t

abbrev pub event_row : ℕ → ℕ → String → UsageEventIn → UsageEvent
event_row org default_at id e = record {
  public_id = id;
  organization_id = org;
  feature_key = e.feature_key;
  quantity = e.quantity *ℤ pos 1000000;
  recorded_at = instant_of e.recorded_at default_at;
  idempotency_key = e.idempotency_key;
}

-- The loop that collects the rows: an event whose key is stored, or stands earlier in the batch, is
-- skipped. The number counts the UUIDs.
unfoldable pub new_events :
    Host → ℕ → ℕ → (String → Bool) → List String → ℕ → List UsageEventIn → List UsageEvent
new_events host org default_at stored pending n [] = []
new_events host org default_at stored pending n (e ∷ rest) =
    let skipped = new_events host org default_at stored pending n rest in
    let later = new_events host org default_at stored (e.idempotency_key ∷ pending) (n + 1) rest in
    if stored e.idempotency_key || any (str_eq e.idempotency_key) pending
    then skipped
    else event_row org default_at (host.uuid7 n) e ∷ later

-- The rows, with their UUIDs drawn.
unfoldable pub draw_events : ℕ → ℕ → (String → Bool) → List UsageEventIn → Exec (List UsageEvent)
unfolding new_events
draw_events org default_at stored events s =
    let rows = new_events s.host org default_at stored [] s.uuids events in
    (ok rows, record s { uuids = s.uuids + length rows })

-- `public_ids_by_key[event.idempotency_key]` for each event.
unfoldable pub public_ids_of : ℕ → List UsageEventIn → List UsageEvent → Exec (List String)
public_ids_of org [] rows = pure []
public_ids_of org (e ∷ rest) rows = do
  row ← or_raise (find_row (is_event_of org e.idempotency_key) rows) (key_error e.idempotency_key)
  later ← public_ids_of org rest rows
  pure (row.public_id ∷ later)

-- `ingest_usage_batch`. Where there is no row to insert, the insertion and the second lookup, which the
-- code then skips, change nothing.
unfoldable pub ingest_usage_batch : ℕ → List UsageEventIn → Exec UsageBatchResult
unfolding draw_events public_ids_of
ingest_usage_batch org events = do
  default_at ← now_utc
  stored ← select (λ t. (λ key. any (is_event_of org key) t.usage_events))
  rows ← draw_events org default_at stored events
  modify (λ t. record t { usage_events = t.usage_events ++ rows })
  all ← select (λ t. t.usage_events)
  public_ids ← public_ids_of org events all
  pure (record {
    accepted = length rows;
    duplicates = length events - length rows;
    public_ids = public_ids;
  })
