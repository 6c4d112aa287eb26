-- ===== src/Subscriptions.antt =====
-- Subscriptions: src/billing_platform/services/subscriptions.py. A row that is assigned to and flushed
-- is written back under its id, and `updated_at` becomes the time of the transaction.
pub mod Laws
pub mod Creation
use saas_billing_entitlement.Prelude.{
  ℕ, ◌+◌, ◌==◌, ltb, Bool, true, false, ◌&&◌, ◌||◌, Option, none, some, is_some, String, List, [],
  ◌∷◌, ◌++◌, if◌then◌else◌, find_row, update_rows,
}
use saas_billing_entitlement.Prelude.Int.{ℤ, pos, ltb_ℤ, pos_part}
use saas_billing_entitlement.Prelude.Text.{str_eq, str_ℕ, ◌⧺◌}
use saas_billing_entitlement.Lifecycle.{
  Status, trialing, canceled, incomplete, status_value, transition,
}
use saas_billing_entitlement.Entitlements.Decide.{days}
use saas_billing_entitlement.Db.Json.{Json, Dict, str, null, str_or_null}
use saas_billing_entitlement.Db.Rows.{Subscription, Plan, Tables}
use saas_billing_entitlement.Db.Session.{
  Session, Error, illegal_transition, plan_not_published, integrity_error, ok, Exec, pure, raise,
  gets, select, scalar_one, or_raise, modify, new_id, new_uuid, now_utc, rollback, ◌>>=◌, ◌>>◌,
}
use saas_billing_entitlement.Outbox.{Fact, enqueue_outbox}
use saas_billing_entitlement.Ledger.{org_public_id}

-- `_period_end`
unfoldable pub period_end : ℕ → String → ℕ
period_end start billing_interval =
    if str_eq billing_interval "year" then start + days 365 else start + days 30

-- `_initial_status`
abbrev positive : Option ℤ → Bool
positive none = false
positive (some n) = ltb_ℤ (pos 0) n

unfoldable pub initial_status : Plan → Status
initial_status plan = if positive plan.trial_days then trialing else incomplete

abbrev pub optional_eq : Option String → String → Bool
optional_eq none key = false
optional_eq (some k) key = str_eq k key

-- `_find_existing_subscription`
abbrev pub subscription_has_key : String → Subscription → Bool
subscription_has_key key x = optional_eq x.idempotency_key key

abbrev pub subscription_by_key : String → Tables → Option Subscription
subscription_by_key key t = find_row (subscription_has_key key) t.subscriptions

abbrev pub plan_by_id : String → Tables → Option Plan
plan_by_id id t = find_row (λ (p : Plan). str_eq p.id id) t.plans

abbrev pub subscription_has_id : ℕ → Subscription → Bool
subscription_has_id id x = x.id == id

abbrev pub subscription_by_id : ℕ → Tables → Option Subscription
subscription_by_id id t = find_row (subscription_has_id id) t.subscriptions

-- A loaded row with its new values is flushed.
abbrev pub stamped : Subscription → ℕ → Subscription
stamped x time = record x { updated_at = time }

unfoldable pub save : Subscription → Exec (Unit {0})
save x = do
  time ← gets (λ s. s.transaction_time)
  modify (λ t. record t {
    subscriptions = update_rows (subscription_has_id x.id) (λ _. stamped x time) t.subscriptions;
  })

-- `transition`, with its exception.
abbrev pub illegal_text : Status → Status → String
illegal_text current new =
    "illegal transition: " ⧺ (status_value current ⧺ (" -> " ⧺ status_value new))

-- The newest of the rows, by `updated_at` and then by `id`.
abbrev pub newer : Subscription → Subscription → Bool
newer a b = ltb b.updated_at a.updated_at || (b.updated_at == a.updated_at && ltb b.id a.id)

unfoldable pub newest_of : ℕ → List Subscription → Option Subscription
newest_of org [] = none
newest_of org (x ∷ rest) = elim (newest_of org rest) [
  | none ↦ if x.organization_id == org then some x else none
  | some y ↦ if x.organization_id == org && newer x y then some x else some y
]

-- `get_primary_subscription`
unfoldable pub get_primary_subscription : ℕ → Exec (Option Subscription)
unfolding newest_of
get_primary_subscription org = do select (λ t. newest_of org t.subscriptions)

-- The keyword arguments of `create_subscription`; `metadata or {}` is `metadata`.
pub record Order : Type 0 where
  pub organization_id : ℕ
  pub plan_id : String
  pub idempotency_key : String
  pub metadata : Dict

-- `trial_end` for a plan whose trial lasts a positive number of days.
abbrev trial_end_of : Status → ℕ → Option ℤ → Option ℕ
trial_end_of trialing now (some n) = some (now + days (pos_part n))
trial_end_of _ now _ = none

unfoldable pub subscription_of : Order → Plan → ℕ → String → ℕ → ℕ → Subscription
unfolding initial_status period_end
subscription_of o plan id public_id now time = record {
  id = id;
  public_id = public_id;
  organization_id = o.organization_id;
  plan_id = o.plan_id;
  status = initial_status plan;
  current_period_start = now;
  current_period_end = period_end now plan.billing_interval;
  cancel_at_period_end = false;
  canceled_at = none;
  past_due_entered_at = none;
  trial_end = trial_end_of (initial_status plan) now plan.trial_days;
  external_subscription_id = none;
  idempotency_key = some o.idempotency_key;
  metadata = o.metadata;
  updated_at = time;
}

-- Other transactions commit these subscriptions at this point.
unfoldable pub others_commit : List Subscription → Exec (Unit {0})
others_commit rivals s = (
  ok tt,
  record s {
    tables = record s.tables { subscriptions = s.tables.subscriptions ++ rivals };
    committed = record s.committed { subscriptions = s.committed.subscriptions ++ rivals };
  },
)

abbrev pub add_subscription : Subscription → Tables → Tables
add_subscription x t = record t { subscriptions = t.subscriptions ++ x ∷ [] }

abbrev instant_or_null : (ℕ → String) → Option ℕ → Json
instant_or_null isoformat none = null
instant_or_null isoformat (some t) = str (isoformat t)

unfoldable pub trial_started : Subscription → Exec Subscription
trial_started x = do
  found ← select (org_public_id x.organization_id)
  org ← scalar_one found
  isoformat ← gets (λ s. s.host.isoformat)
  enqueue_outbox (record {
    aggregate_type = "subscription";
    aggregate_id = x.public_id;
    event_type = "subscription.trial_started";
    payload =
        ("subscription_public_id", str x.public_id)
        ∷ ("organization_public_id", str org)
        ∷ ("trial_end", instant_or_null isoformat x.trial_end)
        ∷ [];
    idempotency_key = "subscription:" ⧺ (x.public_id ⧺ ":trial_started");
    partition_key = str_ℕ x.organization_id;
  })
  pure x

unfoldable pub announce_trial : Status → Subscription → Exec Subscription
unfolding trial_started
announce_trial trialing x = trial_started x
announce_trial _ x = pure x

-- `session.flush()` of the new row, its handler, and the event of a trial.
unfoldable pub flush_subscription : Subscription → Option Subscription → Exec Subscription
unfolding announce_trial
flush_subscription x none = do modify (add_subscription x); announce_trial x.status x
flush_subscription x (some conflict) = do
  rollback
  existing ←
      select (λ t. elim x.idempotency_key [ none ↦ none | some key ↦ subscription_by_key key t ])
  or_raise existing integrity_error

unfoldable pub published : Option Plan → Exec Plan
published none = raise plan_not_published
published (some plan) = if is_some plan.published_at then pure plan else raise plan_not_published

unfoldable pub create_unless : List Subscription → Order → Option Subscription → Exec Subscription
unfolding published others_commit flush_subscription subscription_of
create_unless rivals o (some existing) = pure existing
create_unless rivals o none = do
  found ← select (plan_by_id o.plan_id)
  plan ← published found
  now ← now_utc
  public_id ← new_uuid
  id ← new_id
  time ← gets (λ s. s.transaction_time)
  others_commit rivals
  conflict ← select (subscription_by_key o.idempotency_key)
  flush_subscription (subscription_of o plan id public_id now time) conflict

-- `create_subscription`; the list holds the subscriptions that other transactions commit between its
-- lookup and its insertion.
unfoldable pub create_subscription : List Subscription → Order → Exec Subscription
unfolding create_unless
create_subscription rivals o = do
  existing ← select (subscription_by_key o.idempotency_key)
  create_unless rivals o existing

canceled_fact : Subscription → String → String → Fact
canceled_fact x org at = record {
  aggregate_type = "subscription";
  aggregate_id = x.public_id;
  event_type = "subscription.canceled";
  payload =
      ("subscription_public_id", str x.public_id)
      ∷ ("organization_public_id", str org)
      ∷ ("canceled_at", str at)
      ∷ [];
  idempotency_key = "subscription:" ⧺ (x.public_id ⧺ ":canceled");
  partition_key = str_ℕ x.organization_id;
}

abbrev pub canceled_row : Subscription → Status → ℕ → Subscription
canceled_row x status now = record x {
  status = status;
  canceled_at = some now;
  cancel_at_period_end = false;
}

-- The immediate branch of `cancel_subscription`.
cancel_now : Subscription → Exec Subscription
unfolding save canceled_fact
cancel_now x = do
  new_status ←
      or_raise (transition x.status canceled) (illegal_transition (illegal_text x.status canceled))
  now ← now_utc
  save (canceled_row x new_status now)
  found ← select (org_public_id x.organization_id)
  org ← scalar_one found
  isoformat ← gets (λ s. s.host.isoformat)
  enqueue_outbox (canceled_fact x org (isoformat now))
  pure (canceled_row x new_status now)

abbrev pub marked_row : Subscription → Subscription
marked_row x = record x { cancel_at_period_end = true }

-- `cancel_subscription`. A flag that is set already is no change, and nothing is flushed.
unfoldable pub cancel_subscription : Subscription → Bool → Exec Subscription
unfolding cancel_now
cancel_subscription x at_period_end =
    if at_period_end
    then if x.cancel_at_period_end then pure x else (do save (marked_row x); pure (marked_row x))
    else cancel_now x
