-- ===== src/Grace/Laws.antt =====
-- What the expiry of grace periods does: src/billing_platform/services/grace.py.
use saas_billing_entitlement.Prelude.{
  ◌+◌, ◌*◌, leb, ◌≢◌, if◌then◌else◌, find_row, update_rows, some_inj, ℕ, ◌==◌, ◌≡◌, refl, ap, sym,
  subst, ◌∙◌, Bool, true, false, not, Bool-cases, inl, inr, none, some, Option-cases, String, List,
  All-map, [], ◌∷◌, arith, All, any, where_rows, length, map,
}
use saas_billing_entitlement.Prelude.Text.{◌⧺◌}
use saas_billing_entitlement.Lifecycle.{Status, past_due, canceled, unpaid, same_status, transition}
use saas_billing_entitlement.Entitlements.Decide.{is_grace_active, compute_grace_until}
use saas_billing_entitlement.Db.Rows.{Organization, Subscription, Plan, LedgerEntry, Tables}
use saas_billing_entitlement.Db.Session.{Session, ok}
use saas_billing_entitlement.Outbox.{Fact, is_enqueued, message_has_key}
use saas_billing_entitlement.Outbox.Laws.{
  outbox_after, enqueue_outbox_lem, any-outbox_after_self, any-outbox_after,
}
use saas_billing_entitlement.Ledger.{post, org_in, org_public_id, entry_by_key}
use saas_billing_entitlement.Ledger.Laws.{IsSound, post-Written, post-frame, event_key}
use saas_billing_entitlement.Subscriptions.{
  save, stamped, subscription_has_id, subscription_by_id, plan_by_id,
}
use saas_billing_entitlement.Subscriptions.Laws.{find-save, find-save_ne}
use saas_billing_entitlement.Grace.{
  revocation_target, revoked_row, revoked_feature_keys, marker, revoked_fact, is_candidate,
  expiry_base, revoke_expired_subscription, is_expired, expire_rows, joined, candidates,
  enforce_grace_expiry,
}

-- The job and the hot path agree on every overdue subscription: at any moment its grace is active
-- exactly when the job would not revoke it.
is_grace_active-is_expired :
    (x : Subscription) (plan : Plan) (now t : ℕ)
    → x.status ≡ past_due
    → x.past_due_entered_at ≡ some t
    → is_grace_active x.status plan.grace_period_days x.past_due_entered_at now
      ≡ not (is_expired x plan now)
unfolding is_grace_active is_expired
is_grace_active-is_expired x plan now t overdue entered = ground arith

-- What becomes of an overdue subscription whose grace has ended: canceled, if it was to end with its
-- period, and unpaid in all other cases.
abbrev pub left_with : Subscription → Status
left_with x = if x.cancel_at_period_end then canceled else unpaid

-- The row that is found under the subscription's id has that status, and no time of a missed payment.
abbrev pub IsRevoked : Subscription → Tables → Type 0
IsRevoked x t =
    (row : Subscription) × (subscription_by_id x.id t ≡ some row)
    × (row.status ≡ left_with x)
    × (row.past_due_entered_at ≡ none)

target_is_legal :
    (x : Subscription) → transition past_due (revocation_target x) ≡ some (revocation_target x)
unfolding transition revocation_target
target_is_legal x = ground arith

revoked_row-status :
    (x : Subscription) (now : ℕ)
    → let y = revoked_row x (revocation_target x) now in
      (y.id ≡ x.id) × (y.status ≡ left_with x) × (y.past_due_entered_at ≡ none)
unfolding revoked_row revocation_target
revoked_row-status x now = elim (Bool-cases x.cancel_at_period_end) [
  | inl ends ↦ rw ends (refl, refl, refl)
  | inr goes_on ↦ rw goes_on (refl, refl, refl)
]

pub IsSound-outbox :
    (f : Fact) (s : Session)
    → IsSound s.tables
    → IsSound (record s.tables { outbox = outbox_after f s })
IsSound-outbox f s h = record {
  unique = h.unique;
  announced =
      All-map (λ e p. any-outbox_after f s (message_has_key (event_key e)) p) s.tables.ledger
        h.announced;
}

pub save-IsSound : (y : Subscription) (s : Session) → IsSound s.tables → IsSound (save y s).1.tables
unfolding save
save-IsSound y s h = record { unique = h.unique; announced = h.announced }

pub save-known :
    (y : Subscription) (s : Session) (id : ℕ) {org : String}
    → org_public_id id s.tables ≡ some org
    → org_public_id id (save y s).1.tables ≡ some org
unfolding save
save-known y s id h = h

-- The row that is written is found under its id, and every other row as before.
save-rows :
    (x y z : Subscription) (s : Session)
    → y.id ≡ x.id
    → subscription_by_id x.id s.tables ≡ some z
    → (subscription_by_id x.id (save y s).1.tables ≡ some (stamped y s.transaction_time))
      × ((id : ℕ)
          → id ≢ x.id
          → subscription_by_id id (save y s).1.tables ≡ subscription_by_id id s.tables)
unfolding save
save-rows x y z s same stored = (
  subst
      (λ id.
        find_row (subscription_has_id x.id) (
          update_rows (subscription_has_id id) (λ _. stamped y s.transaction_time)
            s.tables.subscriptions)
        ≡ some (stamped y s.transaction_time))
      (sym same) (find-save x.id (stamped y s.transaction_time) s.tables.subscriptions same stored),
  λ id other.
      find-save_ne y.id id (stamped y s.transaction_time) s.tables.subscriptions refl
        (λ e. other (e ∙ same)),
)

legal_revocation :
    (x : Subscription)
    → x.status ≡ past_due
    → transition x.status (revocation_target x) ≡ some (revocation_target x)
legal_revocation x overdue =
    subst (λ (st : Status). transition st (revocation_target x) ≡ some (revocation_target x))
      (sym overdue) (target_is_legal x)

-- What the revocation of one row leaves behind.
pub record Revoked (x : Subscription) (t t' : Tables) : Type 0 where
  pub sound : IsSound t'
  pub organizations : t'.organizations ≡ t.organizations
  pub is_revoked : IsRevoked x t'
  pub others : (id : ℕ) → id ≢ x.id → subscription_by_id id t' ≡ subscription_by_id id t
  pub marked :
      (e : LedgerEntry) × (entry_by_key (expiry_base x ⧺ ":ledger:access_revoked_marker") t'
        ≡ some e)
  pub announced : is_enqueued (expiry_base x ⧺ ":subscription.access_revoked") t' ≡ true

-- Revoking a stored, overdue row of a known organization succeeds: its row is revoked, no other row
-- changes, the zero-amount marker stands in the ledger, and the event in the outbox. This is for tables
-- in which no ledger key stands twice and every entry's event is in the outbox.
revoke_expired_subscription-Revoked :
    (x : Subscription) (plan : Plan) (now : ℕ) (s : Session) (org : String) (z : Subscription)
    → IsSound s.tables
    → x.status ≡ past_due
    → org_public_id x.organization_id s.tables ≡ some org
    → subscription_by_id x.id s.tables ≡ some z
    → ((revoke_expired_subscription x plan now s).0 ≡ ok tt)
      × Revoked x s.tables (revoke_expired_subscription x plan now s).1.tables
unfolding revoke_expired_subscription marker save revoked_fact
revoke_expired_subscription-Revoked x plan now s org z h overdue known stored =
    let row = revoked_row x (revocation_target x) now in
    let s1 = (save row s).1 in
    let p = marker x (revocation_target x) (revoked_feature_keys plan.id s1.tables) in
    let (e, done, w) =
      post-Written p s1 org (save-IsSound row s h) (save-known row s x.organization_id known) in
    let test : same_status x.status past_due ≡ true = rw overdue refl in
    let s2 = (post p s1).1 in
    let after = revoked_row-status x now in
    let written = save-rows x row z s after.0 stored in
    let kept : s2.tables.subscriptions ≡ s1.tables.subscriptions =
      ap (λ (t : Session). t.tables.subscriptions) (post-frame p s1) in
    rw test (
      rw (legal_revocation x overdue) (
        rw known (
          rw done (
            rw enqueue_outbox_lem (
              refl,
              record {
                sound = IsSound-outbox _ s2 w.sound;
                organizations = ap (λ (t : Session). t.tables.organizations) (post-frame p s1);
                is_revoked = (
                  stamped row s.transaction_time,
                  ap (find_row (subscription_has_id x.id)) kept ∙ written.0,
                  after.1,
                  after.2,
                );
                others =
                    λ id other. ap (find_row (subscription_has_id id)) kept ∙ written.1 id other;
                marked = (e, w.stored);
                announced = any-outbox_after_self _ s2;
              },
            )))))

-- The grace of an overdue subscription has ended: its days since the missed payment are over.
abbrev pub is_over : ℕ → Subscription × Plan → Bool
is_over now e = elim e.0.past_due_entered_at [
  | none ↦ false
  | some entered_at ↦ leb (entered_at + e.1.grace_period_days * 86400000000) now
]

is_expired-is_over :
    (x : Subscription) (plan : Plan) (now : ℕ) → is_expired x plan now ≡ is_over now (x, plan)
unfolding is_expired compute_grace_until
is_expired-is_over x plan now = elim (Option-cases x.past_due_entered_at) [
  | inl never ↦ rw never refl
  | inr (t, entered) ↦ rw entered (ground arith)
]

abbrev pub due : ℕ → List (Subscription × Plan) → List (Subscription × Plan)
due now = where_rows (is_over now)

-- A row that the job may revoke: overdue, and of a known organization.
abbrev pub IsReady : List Organization → Subscription × Plan → Type 0
IsReady orgs e =
    (e.0.status ≡ past_due) × (org : String) × (org_in e.0.organization_id orgs ≡ some org)

-- It is the row that some tables have under its id.
abbrev pub IsFound : Tables → Subscription → Type 0
IsFound t x = subscription_by_id x.id t ≡ some x

-- A row is stored under the id.
abbrev IsStored : Tables → Subscription × Plan → Type 0
IsStored t e = (z : Subscription) × (subscription_by_id e.0.id t ≡ some z)

abbrev pub is_among : ℕ → List (Subscription × Plan) → Bool
is_among id = any (λ (e : Subscription × Plan). e.0.id == id)

-- What a pass over some rows leaves behind: each of them revoked, and every other one as it was.
pub record Swept (rows : List (Subscription × Plan)) (t t' : Tables) : Type 0 where
  pub sound : IsSound t'
  pub organizations : t'.organizations ≡ t.organizations
  pub cleared : All (λ (e : Subscription × Plan). IsRevoked e.0 t') rows
  pub others :
      (id : ℕ) → is_among id rows ≡ false → subscription_by_id id t' ≡ subscription_by_id id t

-- What the job reports of the rows that it revoked.
abbrev pub report : List (Subscription × Plan) → ℕ × List ℕ
report rows = (length rows, map (λ (e : Subscription × Plan). e.0.organization_id) rows)

-- Two rows that the same tables have under one id are the same.
IsRevoked-among :
    (base t : Tables) (x : Subscription) (rows : List (Subscription × Plan))
    → IsFound base x
    → All (λ (e : Subscription × Plan). IsFound base e.0) rows
    → All (λ (e : Subscription × Plan). IsRevoked e.0 t) rows
    → is_among x.id rows ≡ true
    → IsRevoked x t
IsRevoked-among base t x [] found all revoked h = cc
IsRevoked-among base t x (e ∷ rows) found all revoked h = elim (Bool-cases (e.0.id == x.id)) [
  | inl hit ↦
      let same_id : e.0.id ≡ x.id = ground arith in
      let same : e.0 ≡ x =
        some_inj
          (sym (subst (λ id. subscription_by_id id base ≡ some e.0) same_id all.0) ∙ found) in
      subst (λ y. IsRevoked y t) same revoked.0
  | inr miss ↦ IsRevoked-among base t x rows found all.1 revoked.1 (ground arith)
]

All-due :
    (P : Subscription × Plan → Type 0) (now : ℕ) (rows : List (Subscription × Plan))
    → All P rows
    → All P (due now rows)
All-due P now [] h = tt
All-due P now (e ∷ rows) h = elim (Bool-cases (is_over now e)) [
  | inl hit ↦ rw hit (h.0, All-due P now rows h.1)
  | inr miss ↦ rw miss (All-due P now rows h.1)
]

IsStored-after :
    (x : Subscription) (t t' : Tables) (e : Subscription × Plan)
    → Revoked x t t'
    → IsStored t e
    → IsStored t' e
IsStored-after x t t' e r (z, h) = elim (Bool-cases (e.0.id == x.id)) [
  | inl hit ↦
      let same : e.0.id ≡ x.id = ground arith in
      (
        r.is_revoked.0,
        subst (λ id. subscription_by_id id t' ≡ some r.is_revoked.0) (sym same) r.is_revoked.1,
      )
  | inr miss ↦ (z, r.others e.0.id (ground arith) ∙ h)
]

pub expire_rows-Swept :
    (base : Tables) (rows : List (Subscription × Plan)) (now : ℕ) (s : Session)
    → IsSound s.tables
    → All (IsReady s.tables.organizations) rows
    → All (λ (e : Subscription × Plan). IsFound base e.0) rows
    → All (IsStored s.tables) rows
    → ((expire_rows rows now s).0 ≡ ok (report (due now rows)))
      × Swept (due now rows) s.tables (expire_rows rows now s).1.tables
unfolding expire_rows
expire_rows-Swept base [] now s h ready found stored =
    (refl, record { sound = h; organizations = refl; cleared = tt; others = λ id p. refl })
expire_rows-Swept base ((x, plan) ∷ rest) now s h ready found stored =
    let test = is_expired-is_over x plan now in
    elim (Bool-cases (is_over now (x, plan))) [
      | inr early ↦ rw (test, early) (expire_rows-Swept base rest now s h ready.1 found.1 stored.1)
      | inl ended ↦
          let (done, r) =
            revoke_expired_subscription-Revoked x plan now s ready.0.1 stored.0.0 h ready.0.0
              ready.0.2 stored.0.1 in
          let s' = (revoke_expired_subscription x plan now s).1 in
          let (rest_done, w) =
            expire_rows-Swept base rest now s' r.sound (rw r.organizations ready.1) found.1
              (All-map (λ e p. IsStored-after x s.tables s'.tables e r p) rest stored.1) in
          let t' = (expire_rows rest now s').1.tables in
          let x_revoked : IsRevoked x t' = elim (Bool-cases (is_among x.id (due now rest))) [
            | inl again ↦
                IsRevoked-among base t' x (due now rest) found.0
                  (All-due (λ (e : Subscription × Plan). IsFound base e.0) now rest found.1)
                  w.cleared again
            | inr once ↦ (
              r.is_revoked.0,
              w.others x.id once ∙ r.is_revoked.1,
              r.is_revoked.2,
              r.is_revoked.3,
            )
          ] in
          rw (test, ended)
            (rw done (
              rw rest_done (
                ground arith,
                record {
                  sound = w.sound;
                  organizations = w.organizations ∙ r.organizations;
                  cleared = (x_revoked, w.cleared);
                  others = λ id absent.
                      w.others id (ground arith) ∙ r.others id (λ (e : id ≡ x.id). ground arith);
                },
              )))
    ]

-- The organization of a subscription is known.
abbrev pub HasOrg : List Organization → Subscription → Type 0
HasOrg orgs x = (org : String) × (org_in x.organization_id orgs ≡ some org)

overdue_status : (x : Subscription) → is_candidate x ≡ true → x.status ≡ past_due
overdue_status x h = ground arith

joined-skip :
    (t : Tables) (x : Subscription) (rows : List Subscription)
    → plan_by_id x.plan_id t ≡ none
    → joined t (x ∷ rows) ≡ joined t rows
unfolding joined
joined-skip t x rows e = rw (e, joined) refl

joined-take :
    (t : Tables) (x : Subscription) (plan : Plan) (rows : List Subscription)
    → plan_by_id x.plan_id t ≡ some plan
    → joined t (x ∷ rows) ≡ (x, plan) ∷ joined t rows
unfolding joined
joined-take t x plan rows e = rw (e, joined) refl

joined-IsReady :
    (t : Tables) (rows : List Subscription)
    → All (HasOrg t.organizations) rows
    → All (IsReady t.organizations) (joined t (candidates rows))
joined-IsReady t [] known = unfold joined in tt
joined-IsReady t (x ∷ rows) known = elim (Bool-cases (is_candidate x)) [
  | inr skipped ↦ rw skipped (joined-IsReady t rows known.1)
  | inl taken ↦ rw taken (elim (Option-cases (plan_by_id x.plan_id t)) [
    | inl no_plan ↦ rw (joined-skip t x (candidates rows) no_plan) (joined-IsReady t rows known.1)
    | inr (plan, e) ↦
        rw (joined-take t x plan (candidates rows) e)
          ((overdue_status x taken, known.0.0, known.0.1), joined-IsReady t rows known.1)
  ])
]

All-joined :
    (P : Subscription → Type 0) (t : Tables) (rows : List Subscription)
    → All P rows
    → All (λ (e : Subscription × Plan). P e.0) (joined t (candidates rows))
All-joined P t [] h = unfold joined in tt
All-joined P t (x ∷ rows) h = elim (Bool-cases (is_candidate x)) [
  | inr skipped ↦ rw skipped (All-joined P t rows h.1)
  | inl taken ↦ rw taken (elim (Option-cases (plan_by_id x.plan_id t)) [
    | inl no_plan ↦ rw (joined-skip t x (candidates rows) no_plan) (All-joined P t rows h.1)
    | inr (plan, e) ↦ rw (joined-take t x plan (candidates rows) e) (h.0, All-joined P t rows h.1)
  ])
]

-- Where every subscription's organization is known and every row is the one found under its id, one
-- pass of the job succeeds. It revokes the overdue rows with a plan whose days of grace since the missed
-- payment are over, counts them, and names their organizations: each of them is canceled if it was to
-- end with its period, and else unpaid, with no time of a missed payment. Every other row is as it was,
-- and the ledger keeps its invariant. This is for tables in which no ledger key stands twice and every
-- entry's event is in the outbox.
pub enforce_grace_expiry-Swept :
    (now : ℕ) (s : Session)
    → IsSound s.tables
    → All (HasOrg s.tables.organizations) s.tables.subscriptions
    → All (IsFound s.tables) s.tables.subscriptions
    → let rows = due now (joined s.tables (candidates s.tables.subscriptions)) in
      ((enforce_grace_expiry now s).0 ≡ ok (report rows))
      × Swept rows s.tables (enforce_grace_expiry now s).1.tables
unfolding enforce_grace_expiry
enforce_grace_expiry-Swept now s h known found =
    expire_rows-Swept s.tables (joined s.tables (candidates s.tables.subscriptions)) now s h
      (joined-IsReady s.tables s.tables.subscriptions known)
      (All-joined (IsFound s.tables) s.tables s.tables.subscriptions found)
      (All-joined
        (λ (x : Subscription). (z : Subscription) × (subscription_by_id x.id s.tables ≡ some z))
        s.tables s.tables.subscriptions
        (All-map (λ (x : Subscription) p. (x, p)) s.tables.subscriptions found))
