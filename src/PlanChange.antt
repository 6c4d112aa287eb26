-- ===== src/PlanChange.antt =====
-- An immediate change of plan: src/billing_platform/services/plan_change.py.
pub mod Laws
use saas_billing_entitlement.Prelude.{
  ℕ, Bool, true, false, ◌&&◌, Option, none, some, is_some, String, List, [], ◌∷◌, if◌then◌else◌,
  find_row,
}
use saas_billing_entitlement.Prelude.Int.{ℤ, pos, negsuc, ◌+ℤ◌, ltb_ℤ}
use saas_billing_entitlement.Prelude.Text.{str_eq, str_ℕ, ◌⧺◌}
use saas_billing_entitlement.Lifecycle.{Status, canceled, unpaid}
use saas_billing_entitlement.Db.Json.{Json, Dict, str, bool}
use saas_billing_entitlement.Db.Rows.{
  Subscription, Plan, Price, EntryType, LedgerEntry, proration_debit, proration_credit, Tables,
}
use saas_billing_entitlement.Db.Session.{
  Error, plan_change_unsupported, plan_change_not_allowed, plan_not_published, Exec, pure, raise,
  select, scalar_one, ◌>>=◌, ◌>>◌,
}
use saas_billing_entitlement.Outbox.{Fact, is_enqueued, enqueue_outbox}
use saas_billing_entitlement.Ledger.{Posting, post, org_public_id}
use saas_billing_entitlement.Subscriptions.{plan_by_id, save}

-- `_plan_flat_price_cents`
abbrev is_flat : String → Price → Bool
is_flat plan_id p = str_eq p.plan_id plan_id && (p.is_active && str_eq p.pricing_model "flat")

unfoldable pub flat_sum : String → List Price → ℤ
flat_sum plan_id [] = pos 0
flat_sum plan_id (p ∷ rest) =
    (if is_flat plan_id p then p.unit_amount_cents else pos 0) +ℤ flat_sum plan_id rest

-- `FORBIDDEN_STATUSES`
abbrev pub is_forbidden_status : Status → Bool
is_forbidden_status canceled = true
is_forbidden_status unpaid = true
is_forbidden_status _ = false

abbrev pub changed_key : String → String
changed_key key = "plan_change:" ⧺ (key ⧺ ":plan_changed")

unfoldable pub proration : Subscription → String → String → EntryType → ℤ → String → Posting
proration x new_plan_id key entry_type amount suffix = record {
  organization_id = x.organization_id;
  entry_type = entry_type;
  amount_cents = amount;
  currency = "USD";
  idempotency_key = "plan_change:" ⧺ (key ⧺ suffix);
  correlation_id = "plan_change:" ⧺ key;
  subscription_id = some x.id;
  invoice_id = none;
  quantity = none;
  metadata =
      ("old_plan_id", str x.plan_id) ∷ ("new_plan_id", str new_plan_id) ∷ ("stub", bool true) ∷ [];
}

-- The stub proration entry for a dearer or a cheaper plan; `STUB_PRORATION_CENTS` is 1.
unfoldable pub prorate : Subscription → String → String → ℤ → ℤ → Exec (Unit {0})
prorate x new_plan_id key old_price new_price =
    if ltb_ℤ old_price new_price
    then (do post (proration x new_plan_id key proration_debit (pos 1) ":proration_debit"); pure tt)
    else if ltb_ℤ new_price old_price
    then (do
      post (proration x new_plan_id key proration_credit (negsuc 0) ":proration_credit")
      pure tt)
    else pure tt

unfoldable pub changed_fact : Subscription → String → String → String → Fact
changed_fact x new_plan_id org key = record {
  aggregate_type = "subscription";
  aggregate_id = x.public_id;
  event_type = "subscription.plan_changed";
  payload =
      ("subscription_public_id", str x.public_id)
      ∷ ("organization_public_id", str org)
      ∷ ("old_plan_id", str x.plan_id)
      ∷ ("new_plan_id", str new_plan_id)
      ∷ ("effective", str "immediate")
      ∷ ("proration_stub", bool true)
      ∷ [];
  idempotency_key = changed_key key;
  partition_key = str_ℕ x.organization_id;
}

abbrev pub moved : Subscription → String → Subscription
moved x new_plan_id = record x { plan_id = new_plan_id }

unfoldable pub change_to : Subscription → String → String → Option Plan → Exec Subscription
change_to x new_plan_id key none = raise plan_not_published
change_to x new_plan_id key (some plan) =
    if is_some plan.published_at
    then (do
      old_price ← select (λ t. flat_sum x.plan_id t.prices)
      new_price ← select (λ t. flat_sum new_plan_id t.prices)
      prorate x new_plan_id key old_price new_price
      save (moved x new_plan_id)
      found ← select (org_public_id x.organization_id)
      org ← scalar_one found
      enqueue_outbox (changed_fact x new_plan_id org key)
      pure (moved x new_plan_id))
    else raise plan_not_published

-- The rest of `change_plan`, once it is known whether the event of this key is in the outbox.
unfoldable pub change_unless : Bool → Subscription → String → String → Exec Subscription
unfolding change_to
change_unless true x new_plan_id key = pure x
change_unless false x new_plan_id key =
    if is_forbidden_status x.status
    then raise plan_change_not_allowed
    else if str_eq x.plan_id new_plan_id
    then pure x
    else (do plan ← select (plan_by_id new_plan_id); change_to x new_plan_id key plan)

change_immediately : Subscription → String → String → Exec Subscription
unfolding change_unless
change_immediately x new_plan_id key = do
  done ← select (is_enqueued (changed_key key))
  change_unless done x new_plan_id key

-- `change_plan` on a loaded row; the second argument is `effective`.
unfoldable pub change_plan : Subscription → String → String → String → Exec Subscription
unfolding change_immediately
change_plan x effective new_plan_id key =
    if str_eq effective "immediate"
    then change_immediately x new_plan_id key
    else raise plan_change_unsupported
