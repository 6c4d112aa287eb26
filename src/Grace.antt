-- ===== src/Grace.antt =====
-- Expiry of the grace period: src/billing_platform/services/grace.py.
pub mod Laws
use saas_billing_entitlement.Prelude.{
  find_row, ℕ, ◌+◌, ◌==◌, ltb, Bool, true, false, ◌&&◌, Option, none, some, is_some, String, List,
  [], ◌∷◌, map, if◌then◌else◌, where_rows,
}
use saas_billing_entitlement.Prelude.Int.{pos}
use saas_billing_entitlement.Prelude.Text.{str_eq, str_ℕ, ◌⧺◌}
use saas_billing_entitlement.Lifecycle.{
  Status, past_due, canceled, unpaid, same_status, status_value, transition,
}
use saas_billing_entitlement.Entitlements.Decide.{compute_grace_until}
use saas_billing_entitlement.Db.Json.{Json, Dict, str, arr, strings}
use saas_billing_entitlement.Db.Rows.{
  Feature, PlanFeature, Subscription, Plan, LedgerEntry, access_revoked_marker, Tables,
}
use saas_billing_entitlement.Db.Session.{
  Error, runtime_error, Exec, pure, raise, select, scalar_one, or_raise, ◌>>=◌, ◌>>◌,
}
use saas_billing_entitlement.Outbox.{Fact, enqueue_outbox}
use saas_billing_entitlement.Ledger.{Posting, post, org_public_id}
use saas_billing_entitlement.Subscriptions.{plan_by_id, save, illegal_text}

abbrev pub feature_has_id : String → Feature → Bool
feature_has_id id f = str_eq f.id id

-- `_load_revoked_feature_keys`: the keys of the features that are enabled in the plan.
unfoldable pub keys_of : List PlanFeature → List Feature → List String
keys_of [] features = []
keys_of (row ∷ rest) features = elim (find_row (feature_has_id row.feature_id) features) [
  | none ↦ keys_of rest features
  | some feature ↦ feature.key ∷ keys_of rest features
]

unfoldable pub revoked_feature_keys : String → Tables → List String
unfolding keys_of
revoked_feature_keys plan_id t =
    keys_of
      (where_rows (λ (row : PlanFeature). str_eq row.plan_id plan_id && row.is_enabled)
        t.plan_features)
      t.features

unfoldable pub revocation_target : Subscription → Status
revocation_target x = if x.cancel_at_period_end then canceled else unpaid

-- The row after the revocation.
unfoldable pub revoked_row : Subscription → Status → ℕ → Subscription
revoked_row x canceled now = record x {
  status = canceled;
  canceled_at = some now;
  cancel_at_period_end = false;
  past_due_entered_at = none;
}
revoked_row x status now = record x { status = status; past_due_entered_at = none }

abbrev pub expiry_base : Subscription → String
expiry_base x = "grace_expiry:" ⧺ x.public_id

unfoldable pub marker : Subscription → Status → List String → Posting
marker x status features = record {
  organization_id = x.organization_id;
  entry_type = access_revoked_marker;
  amount_cents = pos 0;
  currency = "USD";
  idempotency_key = expiry_base x ⧺ ":ledger:access_revoked_marker";
  correlation_id = expiry_base x;
  subscription_id = some x.id;
  invoice_id = none;
  quantity = none;
  metadata =
      ("subscription_public_id", str x.public_id)
      ∷ ("previous_status", str "past_due")
      ∷ ("new_status", str (status_value status))
      ∷ ("revoked_features", arr (strings features))
      ∷ [];
}

unfoldable pub revoked_fact : Subscription → Status → String → List String → Fact
revoked_fact x status org features = record {
  aggregate_type = "subscription";
  aggregate_id = x.public_id;
  event_type = "subscription.access_revoked";
  payload =
      ("subscription_public_id", str x.public_id)
      ∷ ("organization_public_id", str org)
      ∷ ("previous_status", str "past_due")
      ∷ ("new_status", str (status_value status))
      ∷ ("revoked_features", arr (strings features))
      ∷ [];
  idempotency_key = expiry_base x ⧺ ":subscription.access_revoked";
  partition_key = str_ℕ x.organization_id;
}

-- `_revoke_expired_subscription` on a loaded row and its plan.
unfoldable pub revoke_expired_subscription : Subscription → Plan → ℕ → Exec (Unit {0})
revoke_expired_subscription x plan now =
    if same_status x.status past_due
    then (do
      status ←
          or_raise (transition x.status (revocation_target x))
            (runtime_error (illegal_text x.status (revocation_target x)))
      save (revoked_row x status now)
      found ← select (org_public_id x.organization_id)
      org ← scalar_one found
      features ← select (revoked_feature_keys plan.id)
      post (marker x status features)
      enqueue_outbox (revoked_fact x status org features))
    else pure tt

-- The rows that `enforce_grace_expiry` selects: overdue, with the time of entry, and with their plan.
abbrev is_candidate : Subscription → Bool
is_candidate x = same_status x.status past_due && is_some x.past_due_entered_at

abbrev pub candidates : List Subscription → List Subscription
candidates = where_rows is_candidate

unfoldable pub joined : Tables → List Subscription → List (Subscription × Plan)
joined t [] = []
joined t (x ∷ rest) = elim (plan_by_id x.plan_id t) [
  | none ↦ joined t rest
  | some plan ↦ (x, plan) ∷ joined t rest
]

-- Whether the loop revokes the row.
unfoldable pub is_expired : Subscription → Plan → ℕ → Bool
is_expired x plan now = elim x.past_due_entered_at [
  | none ↦ false
  | some entered_at ↦
      if ltb now (compute_grace_until entered_at plan.grace_period_days) then false else true
]

-- The loop: the number processed, and the organizations to bump (a set, as a list).
unfoldable pub expire_rows : List (Subscription × Plan) → ℕ → Exec (ℕ × List ℕ)
expire_rows [] now = pure (0, [])
expire_rows ((x, plan) ∷ rest) now =
    let remaining = expire_rows rest now in
    if is_expired x plan now
    then (do
      revoke_expired_subscription x plan now
      later ← remaining
      pure (later.0 + 1, x.organization_id ∷ later.1))
    else remaining

-- `enforce_grace_expiry`
unfoldable pub enforce_grace_expiry : ℕ → Exec (ℕ × List ℕ)
unfolding expire_rows joined
enforce_grace_expiry now = do
  rows ← select (λ t. joined t (candidates t.subscriptions))
  expire_rows rows now
