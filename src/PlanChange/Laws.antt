-- ===== src/PlanChange/Laws.antt =====
-- What an immediate change of plan does: src/billing_platform/services/plan_change.py.
use saas_billing_entitlement.Prelude.{
  ℕ, ◌≡◌, refl, ◌≢◌, ap, ◌∙◌, true, false, Bool-cases, inl, inr, ◌⊎◌, Option, none, some, is_some,
  String, List, arith, if◌then◌else◌, find_row,
}
use saas_billing_entitlement.Prelude.Int.{ℤ, pos, negsuc, ltb_ℤ}
use saas_billing_entitlement.Prelude.Text.{str_eq, eq_iff, ◌⧺◌}
use saas_billing_entitlement.Db.Rows.{
  Subscription, Plan, LedgerEntry, EntryType, proration_debit, proration_credit, Tables,
}
use saas_billing_entitlement.Db.Session.{
  Session, ok, err, plan_change_not_allowed, plan_not_published,
}
use saas_billing_entitlement.Outbox.{is_enqueued}
use saas_billing_entitlement.Outbox.Laws.{enqueue_outbox_lem, any-outbox_after_self}
use saas_billing_entitlement.Ledger.{org_public_id, entry_has_key}
use saas_billing_entitlement.Ledger.Laws.{IsSound, post-Stands, post-frame, besides_ledger}
use saas_billing_entitlement.Subscriptions.{save, stamped, subscription_by_id, plan_by_id}
use saas_billing_entitlement.Subscriptions.Laws.{find-save}
use saas_billing_entitlement.PlanChange.{
  flat_sum, is_forbidden_status, changed_key, proration, prorate, changed_fact, moved, change_to,
  change_unless, change_plan,
}

-- Which stub entry a change of price asks for.
abbrev pub stub : ℤ → ℤ → Option (EntryType × ℤ)
stub old_price new_price =
    if ltb_ℤ old_price new_price
    then some (proration_debit, pos 1)
    else if ltb_ℤ new_price old_price
    then some (proration_credit, negsuc 0)
    else none

-- The key of a stub entry.
abbrev stub_key : String → EntryType → String
stub_key key proration_credit = "plan_change:" ⧺ (key ⧺ ":proration_credit")
stub_key key _ = "plan_change:" ⧺ (key ⧺ ":proration_debit")

-- In the ledger that is given last an entry stands under the key of the stub; it stood in the ledger
-- before, or has the type and the amount of the stub and names the subscription.
abbrev pub HasStub :
    String → ℕ → Option (EntryType × ℤ) → List LedgerEntry → List LedgerEntry → Type 0
HasStub key id none before after = after ≡ before
HasStub key id (some (entry_type, amount)) before after =
    (e : LedgerEntry) × (find_row (entry_has_key (stub_key key entry_type)) after ≡ some e)
    × ((find_row (entry_has_key (stub_key key entry_type)) before ≡ some e)
        ⊎ ((e.entry_type ≡ entry_type) × (e.amount_cents ≡ amount) × (e.subscription_id ≡ some id)))

-- What the proration leaves behind.
pub record Prorated (key : String) (id : ℕ) (stub' : Option (EntryType × ℤ)) (s s' : Session)
    : Type 0 where
  pub sound : IsSound s'.tables
  pub besides : besides_ledger s' ≡ besides_ledger s
  pub has_stub : HasStub key id stub' s.tables.ledger s'.tables.ledger

prorate-Prorated :
    (x : Subscription) (new_plan_id key : String) (old_price new_price : ℤ) (s : Session)
    (org : String)
    → IsSound s.tables
    → org_public_id x.organization_id s.tables ≡ some org
    → ((prorate x new_plan_id key old_price new_price s).0 ≡ ok tt)
      × Prorated key x.id
          (stub old_price new_price)
          s
          (prorate x new_plan_id key old_price new_price s).1
unfolding prorate proration
prorate-Prorated x new_plan_id key old_price new_price s org h known =
    elim (Bool-cases (ltb_ℤ old_price new_price)) [
      | inl dearer ↦
          let p = proration x new_plan_id key proration_debit (pos 1) ":proration_debit" in
          let (e, done, w, stands) = post-Stands p s org h known in
          rw dearer (
            rw done (
              refl,
              record {
                sound = w.sound;
                besides = post-frame p s;
                has_stub = (e, w.stored, stands);
              },
            ))
      | inr same_or_cheaper ↦ rw same_or_cheaper (elim (Bool-cases (ltb_ℤ new_price old_price)) [
        | inl cheaper ↦
            let p = proration x new_plan_id key proration_credit (negsuc 0) ":proration_credit" in
            let (e, done, w, stands) = post-Stands p s org h known in
            rw cheaper (
              rw done (
                refl,
                record {
                  sound = w.sound;
                  besides = post-frame p s;
                  has_stub = (e, w.stored, stands);
                },
              ))
        | inr same ↦ rw same (refl, record { sound = h; besides = refl; has_stub = refl })
      ])
    ]

-- The conditions under which a change is carried out.
pub record IsChangeable (x : Subscription) (new_plan_id key : String) (t : Tables) : Type 0 where
  pub not_done : is_enqueued (changed_key key) t ≡ false
  pub status_allows : is_forbidden_status x.status ≡ false
  pub other_plan : x.plan_id ≢ new_plan_id
  pub stored : subscription_by_id x.id t ≡ some x

-- What a change leaves behind.
pub record Changed (x : Subscription) (new_plan_id key : String) (time : ℕ) (t t' : Tables)
    : Type 0 where
  pub new_row : subscription_by_id x.id t' ≡ some (stamped (moved x new_plan_id) time)
  pub announced : is_enqueued (changed_key key) t' ≡ true
  pub has_stub :
      HasStub key x.id
        (stub (flat_sum x.plan_id t.prices) (flat_sum new_plan_id t.prices))
        t.ledger
        t'.ledger

pub change_plan-Changed :
    (x : Subscription) (new_plan_id key : String) (s : Session) (org : String) (plan : Plan)
    → IsSound s.tables
    → IsChangeable x new_plan_id key s.tables
    → plan_by_id new_plan_id s.tables ≡ some plan
    → is_some plan.published_at ≡ true
    → org_public_id x.organization_id s.tables ≡ some org
    → ((change_plan x "immediate" new_plan_id key s).0 ≡ ok (moved x new_plan_id))
      × Changed x new_plan_id key s.transaction_time s.tables
          (change_plan x "immediate" new_plan_id key s).1.tables
unfolding change_plan save changed_fact
change_plan-Changed x new_plan_id key s org plan h c found published known =
    let (done, w) =
      prorate-Prorated x new_plan_id key (flat_sum x.plan_id s.tables.prices)
        (flat_sum new_plan_id s.tables.prices) s org h known in
    let differ : str_eq x.plan_id new_plan_id ≡ false =
      ground (arith, eq_iff x.plan_id new_plan_id, c.other_plan) in
    let s1 =
      (prorate x new_plan_id key (flat_sum x.plan_id s.tables.prices)
        (flat_sum new_plan_id s.tables.prices) s).1 in
    let known1 : org_public_id x.organization_id s1.tables ≡ some org =
      rw (ap (λ (t : Session). t.tables.organizations) w.besides) known in
    let stored1 : subscription_by_id x.id s1.tables ≡ some x =
      rw (ap (λ (t : Session). t.tables.subscriptions) w.besides) c.stored in
    rw (c.not_done, change_unless)
      (rw c.status_allows (
        rw differ (
          rw (found, change_to)
            (rw published (
              rw done (
                rw known1 (
                  rw enqueue_outbox_lem (
                    refl,
                    record {
                      new_row =
                          find-save x.id (stamped (moved x new_plan_id) s1.transaction_time)
                            s1.tables.subscriptions refl stored1
                          ∙ ap
                              (λ (t : Session).
                                some (stamped (moved x new_plan_id) t.transaction_time))
                              w.besides;
                      announced = any-outbox_after_self _ _;
                      has_stub = w.has_stub;
                    },
                  ))))))))

change_plan-done :
    (y : Subscription) (new_plan_id key : String) (s : Session)
    → is_enqueued (changed_key key) s.tables ≡ true
    → change_plan y "immediate" new_plan_id key s ≡ (ok y, s)
unfolding change_plan
change_plan-done y new_plan_id key s done = rw (done, change_unless) refl

-- Once a change has succeeded, every later request under its key, for any row and any plan, returns
-- the row as it is and changes nothing. This is for tables in which no ledger key stands twice and
-- every entry's event is in the outbox, and under the conditions of the first change: another,
-- published plan, a stored subscription that is neither canceled nor unpaid, a known organization,
-- and a key whose event is not in the outbox.
pub change_plan_again :
    (x y : Subscription) (new_plan_id other_plan_id key : String) (s : Session) (org : String)
    (plan : Plan)
    → IsSound s.tables
    → IsChangeable x new_plan_id key s.tables
    → plan_by_id new_plan_id s.tables ≡ some plan
    → is_some plan.published_at ≡ true
    → org_public_id x.organization_id s.tables ≡ some org
    → let s' = (change_plan x "immediate" new_plan_id key s).1 in
      change_plan y "immediate" other_plan_id key s' ≡ (ok y, s')
change_plan_again x y new_plan_id other_plan_id key s org plan h c found published known =
    let (_, w) = change_plan-Changed x new_plan_id key s org plan h c found published known in
    change_plan-done y other_plan_id key (change_plan x "immediate" new_plan_id key s).1 w.announced

-- A canceled or unpaid subscription takes no change, and an unknown or unpublished plan is refused: the
-- call raises and changes nothing.
pub change_plan-refused :
    (x : Subscription) (new_plan_id key : String) (s : Session)
    → is_enqueued (changed_key key) s.tables ≡ false
    → (is_forbidden_status x.status ≡ true
        → change_plan x "immediate" new_plan_id key s ≡ (err plan_change_not_allowed, s))
      × (is_forbidden_status x.status ≡ false
          → x.plan_id ≢ new_plan_id
          → plan_by_id new_plan_id s.tables ≡ none
          → change_plan x "immediate" new_plan_id key s ≡ (err plan_not_published, s))
unfolding change_plan
change_plan-refused x new_plan_id key s not_done = (
  λ forbidden. rw (not_done, change_unless) (rw forbidden refl),
  λ allowed differ unknown.
      let differ' : str_eq x.plan_id new_plan_id ≡ false =
        ground (arith, eq_iff x.plan_id new_plan_id, differ) in
      rw (not_done, change_unless) (rw allowed (rw differ' (rw (unknown, change_to) refl))),
)
