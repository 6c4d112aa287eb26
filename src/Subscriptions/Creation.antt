-- ===== src/Subscriptions/Creation.antt =====
-- Creating a subscription, also against other transactions:
-- src/billing_platform/services/subscriptions.py.
use saas_billing_entitlement.Prelude.{
  ◌+◌, ◌≡◌, refl, ap, ◌∙◌, true, inl, inr, none, some, Option-cases, is_some, String, List, ◌++◌,
  find_row, find_row-append, find_row-skip, find_row-ends,
}
use saas_billing_entitlement.Prelude.Text.{eq_refl, ◌⧺◌}
use saas_billing_entitlement.Lifecycle.{
  Status, trialing, active, past_due, canceled, unpaid, incomplete,
}
use saas_billing_entitlement.Db.Rows.{Subscription, Plan, Tables}
use saas_billing_entitlement.Db.Session.{Session, Result, ok}
use saas_billing_entitlement.Outbox.{is_enqueued}
use saas_billing_entitlement.Outbox.Laws.{enqueue_outbox_lem, any-outbox_after_self}
use saas_billing_entitlement.Ledger.{org_public_id}
use saas_billing_entitlement.Subscriptions.{
  Order, subscription_of, subscription_by_key, subscription_has_key, plan_by_id, published,
  trial_started, announce_trial, flush_subscription, create_unless, create_subscription,
  others_commit, initial_status, add_subscription,
}

abbrev trial_key : Subscription → String
trial_key x = "subscription:" ⧺ (x.public_id ⧺ ":trial_started")

-- The event of a trial.
announce_trial_lem :
    (status : Status) (x : Subscription) (s : Session) (org : String)
    → org_public_id x.organization_id s.tables ≡ some org
    → let (r, s') = announce_trial status x s in
      (r ≡ ok x)
      × (s'.tables.subscriptions ≡ s.tables.subscriptions)
      × (status ≡ trialing → is_enqueued (trial_key x) s'.tables ≡ true)
unfolding announce_trial trial_started
announce_trial_lem trialing x s org known =
    rw known (rw enqueue_outbox_lem (refl, refl, λ _. any-outbox_after_self _ s))
announce_trial_lem active x s org known = (refl, refl, λ h. cc)
announce_trial_lem past_due x s org known = (refl, refl, λ h. cc)
announce_trial_lem canceled x s org known = (refl, refl, λ h. cc)
announce_trial_lem unpaid x s org known = (refl, refl, λ h. cc)
announce_trial_lem incomplete x s org known = (refl, refl, λ h. cc)

-- What a call promises: the row that it returns stands in the table under the key, and the event of its
-- trial in the outbox if the row is the call's own and starts with a trial.
abbrev pub Stored : String → Result Subscription → Tables → Type 0
Stored key r t = (x : Subscription) × (r ≡ ok x) × (subscription_by_key key t ≡ some x)

flush-written :
    (key : String) (x : Subscription) (s : Session) (org : String)
    → subscription_has_key key x ≡ true
    → subscription_by_key key s.tables ≡ none
    → org_public_id x.organization_id s.tables ≡ some org
    → let (r, s') = flush_subscription x none s in
      (r ≡ ok x)
      × (subscription_by_key key s'.tables ≡ some x)
      × (x.status ≡ trialing → is_enqueued (trial_key x) s'.tables ≡ true)
unfolding flush_subscription
flush-written key x s org under_key fresh known =
    let s1 : Session = record s { tables = add_subscription x s.tables } in
    let (done, kept, announced) = announce_trial_lem x.status x s1 org known in
    (
      done,
      ap (find_row (subscription_has_key key)) kept
          ∙ find_row-append (subscription_has_key key) s.tables.subscriptions x fresh
          ∙ rw under_key refl,
      announced,
    )

flush-lost :
    (key : String) (x conflict : Subscription) (s : Session) {found : Subscription}
    → x.idempotency_key ≡ some key
    → subscription_by_key key s.committed ≡ some found
    → let (r, s') = flush_subscription x (some conflict) s in
      (r ≡ ok found) × (subscription_by_key key s'.tables ≡ some found)
unfolding flush_subscription
flush-lost key x conflict s {found} under_key there = rw under_key (rw there (refl, there))

-- The row of a new subscription, and the session in which it is flushed.
abbrev pub new_row : Order → Plan → Session → Subscription
new_row o plan s =
    subscription_of o plan s.next_id (s.host.uuid7 s.uuids) (s.host.clock s.readings)
      s.transaction_time

abbrev before_flush : List Subscription → Session → Session
before_flush rivals s =
    (others_commit rivals
      (record s { uuids = s.uuids + 1; next_id = s.next_id + 1; readings = s.readings + 1 })).1

create-existing_row :
    (rivals : List Subscription) (o : Order) (s : Session) {x : Subscription}
    → subscription_by_key o.idempotency_key s.tables ≡ some x
    → create_subscription rivals o s ≡ (ok x, s)
unfolding create_subscription create_unless
create-existing_row rivals o s there = rw there refl

create-fresh_row :
    (rivals : List Subscription) (o : Order) (s : Session) (plan : Plan)
    → subscription_by_key o.idempotency_key s.tables ≡ none
    → plan_by_id o.plan_id s.tables ≡ some plan
    → is_some plan.published_at ≡ true
    → create_subscription rivals o s
      ≡ flush_subscription
          (new_row o plan s)
          (find_row (subscription_has_key o.idempotency_key) (s.tables.subscriptions ++ rivals))
          (before_flush rivals s)
unfolding create_subscription create_unless others_commit published
create-fresh_row rivals o s plan fresh known open' =
    rw (fresh, create_unless) (rw known (rw open' refl))

written_row :
    (rivals : List Subscription) (o : Order) (s : Session) (plan : Plan) (org : String)
    → subscription_by_key o.idempotency_key s.tables ≡ none
    → find_row (subscription_has_key o.idempotency_key) rivals ≡ none
    → org_public_id o.organization_id s.tables ≡ some org
    → let (r, s') = flush_subscription (new_row o plan s) none (before_flush rivals s) in
      (r ≡ ok (new_row o plan s))
      × (subscription_by_key o.idempotency_key s'.tables ≡ some (new_row o plan s))
      × ((new_row o plan s).status ≡ trialing
          → is_enqueued (trial_key (new_row o plan s)) s'.tables ≡ true)
unfolding others_commit subscription_of
written_row rivals o s plan org fresh alone known =
    flush-written o.idempotency_key (new_row o plan s) (before_flush rivals s) org
      (eq_refl o.idempotency_key)
      (find_row-skip (subscription_has_key o.idempotency_key) s.tables.subscriptions rivals fresh
        ∙ alone)
      known

lost_row :
    (rivals : List Subscription) (o : Order) (s : Session) (plan : Plan) (rival : Subscription)
    → find_row (subscription_has_key o.idempotency_key) rivals ≡ some rival
    → let (r, s') = flush_subscription (new_row o plan s) (some rival) (before_flush rivals s) in
      Stored o.idempotency_key r s'.tables
unfolding others_commit subscription_of
lost_row rivals o s plan rival raced =
    let (x, found) =
      find_row-ends (subscription_has_key o.idempotency_key) s.committed.subscriptions rivals
        raced in
    let (done, stored) =
      flush-lost o.idempotency_key (new_row o plan s) rival (before_flush rivals s) refl found in
    (x, done, stored)

-- For a published plan and a known organization, whatever subscriptions other transactions commit
-- between the lookup and the insertion, the call returns a subscription, and that subscription is the
-- one stored under the key: its own row, the one that was there, or, after a rollback, the one that
-- another transaction was faster to commit.
pub create_subscription-Stored :
    (rivals : List Subscription) (o : Order) (s : Session) (plan : Plan) (org : String)
    → plan_by_id o.plan_id s.tables ≡ some plan
    → is_some plan.published_at ≡ true
    → org_public_id o.organization_id s.tables ≡ some org
    → let (r, s') = create_subscription rivals o s in Stored o.idempotency_key r s'.tables
create_subscription-Stored rivals o s plan org found open' known =
    elim (Option-cases (subscription_by_key o.idempotency_key s.tables)) [
      | inr (x, there) ↦ rw (create-existing_row rivals o s there) (x, refl, there)
      | inl fresh ↦ rw (create-fresh_row rivals o s plan fresh found open') (
          rw
            (find_row-skip (subscription_has_key o.idempotency_key) s.tables.subscriptions rivals
              fresh)
            (elim (Option-cases (find_row (subscription_has_key o.idempotency_key) rivals)) [
              | inl alone ↦ rw alone (
                  let (done, stored, _) = written_row rivals o s plan org fresh alone known in
                  (new_row o plan s, done, stored))
              | inr (rival, raced) ↦ rw raced (lost_row rivals o s plan rival raced)
            ]))
    ]

-- If neither the table nor another transaction has the key, and the published plan starts with a trial,
-- the call returns its own row, and the outbox holds the event of the trial under the row's key.
create_subscription-trial :
    (rivals : List Subscription) (o : Order) (s : Session) (plan : Plan) (org : String)
    → plan_by_id o.plan_id s.tables ≡ some plan
    → is_some plan.published_at ≡ true
    → org_public_id o.organization_id s.tables ≡ some org
    → subscription_by_key o.idempotency_key s.tables ≡ none
    → find_row (subscription_has_key o.idempotency_key) rivals ≡ none
    → initial_status plan ≡ trialing
    → let (r, s') = create_subscription rivals o s in
      (r ≡ ok (new_row o plan s))
      × (is_enqueued ("subscription:" ⧺ (s.host.uuid7 s.uuids ⧺ ":trial_started")) s'.tables ≡ true)
unfolding subscription_of
create_subscription-trial rivals o s plan org found open' known fresh alone trial =
    let (done, _, announced) = written_row rivals o s plan org fresh alone known in
    rw (create-fresh_row rivals o s plan fresh found open') (
      rw
        (find_row-skip (subscription_has_key o.idempotency_key) s.tables.subscriptions rivals fresh)
        (rw alone (done, announced trial)))
