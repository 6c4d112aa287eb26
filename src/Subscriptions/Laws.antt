-- ===== src/Subscriptions/Laws.antt =====
-- Creating, cancelling and choosing subscriptions: src/billing_platform/services/subscriptions.py.
use saas_billing_entitlement.Prelude.{
  any, inl, inr, Bool-cases, some_inj, subst, sym, ap, ◌∙◌, ℕ, ◌≤◌, ◌<◌, ◌==◌, ◌≡◌, refl, ◌≢◌, ◌⊎◌,
  true, false, ◌&&◌, Option, none, some, String, List, [], ◌∷◌, arith, if◌then◌else◌, All, find_row,
  update_rows,
}
use saas_billing_entitlement.Prelude.Text.{◌⧺◌}
use saas_billing_entitlement.Lifecycle.{Status, canceled, unpaid, transition}
use saas_billing_entitlement.Db.Rows.{Subscription}
use saas_billing_entitlement.Db.Session.{Session, ok, err, illegal_transition}
use saas_billing_entitlement.Outbox.{is_enqueued}
use saas_billing_entitlement.Outbox.Laws.{enqueue_outbox_lem, any-outbox_after_self}
use saas_billing_entitlement.Ledger.{org_public_id}
use saas_billing_entitlement.Subscriptions.{
  subscription_by_id, subscription_has_id, newer, newest_of, get_primary_subscription,
  cancel_subscription, canceled_row, stamped, illegal_text,
}

-- Writing back a row: its own id now has it, and every other id what it had.
pub find-save :
    (id : ℕ) (y : Subscription) (rows : List Subscription) {x : Subscription}
    → y.id ≡ id
    → find_row (subscription_has_id id) rows ≡ some x
    → find_row (subscription_has_id id) (update_rows (subscription_has_id id) (λ _. y) rows)
      ≡ some y
find-save id y [] e h = cc
find-save id y (r ∷ rows) {x} e h = ground (arith, find-save id y rows {x = x} e)

pub find-save_ne :
    (id other : ℕ) (y : Subscription) (rows : List Subscription)
    → y.id ≡ id
    → other ≢ id
    → find_row (subscription_has_id other) (update_rows (subscription_has_id id) (λ _. y) rows)
      ≡ find_row (subscription_has_id other) rows
find-save_ne id other y [] e ne = refl
find-save_ne id other y (r ∷ rows) e ne = ground (arith, find-save_ne id other y rows e ne)

-- Every row of the organization is no newer than the one chosen.
abbrev pub NoneNewer : ℕ → Option Subscription → Subscription → Type 0
NoneNewer org none x = x.organization_id ≢ org
NoneNewer org (some y) x =
    x.organization_id ≡ org
    → (x.updated_at < y.updated_at) ⊎ ((x.updated_at ≡ y.updated_at) × (x.id ≤ y.id))

abbrev pub BelongsTo : ℕ → Option Subscription → Type 0
BelongsTo org none = Unit
BelongsTo org (some y) = y.organization_id ≡ org

newest_of-BelongsTo : (org : ℕ) (rows : List Subscription) → BelongsTo org (newest_of org rows)
unfolding newest_of
newest_of-BelongsTo org [] = tt
newest_of-BelongsTo org (x ∷ rows) = ground (arith, newest_of-BelongsTo org rows)

-- The choice at one row keeps what was chosen below it no newer.
abbrev pick : ℕ → Subscription → Option Subscription → Option Subscription
pick org x none = if x.organization_id == org then some x else none
pick org x (some y) = if x.organization_id == org && newer x y then some x else some y

pick_self : (org : ℕ) (x : Subscription) (o : Option Subscription) → NoneNewer org (pick org x o) x
pick_self org x none = ground arith
pick_self org x (some y) = ground arith

pick-keeps :
    (org : ℕ) (x : Subscription) (o : Option Subscription) (z : Subscription)
    → NoneNewer org o z
    → NoneNewer org (pick org x o) z
pick-keeps org x none z h = ground arith
pick-keeps org x (some y) z h = ground arith

All-pick :
    (org : ℕ) (x : Subscription) (o : Option Subscription) (rows : List Subscription)
    → All (NoneNewer org o) rows
    → All (NoneNewer org (pick org x o)) rows
All-pick org x o [] h = tt
All-pick org x o (z ∷ rows) h = (pick-keeps org x o z h.0, All-pick org x o rows h.1)

newest_of-pick :
    (org : ℕ) (x : Subscription) (rows : List Subscription)
    → newest_of org (x ∷ rows) ≡ pick org x (newest_of org rows)
unfolding newest_of
newest_of-pick org x rows = ground arith

any-pick :
    (org : ℕ) (x : Subscription) (o : Option Subscription) {y : Subscription}
    → pick org x o ≡ some y
    → (x ≡ y) ⊎ (o ≡ some y)
any-pick org x none {y} h = elim (Bool-cases (x.organization_id == org)) [
  | inl own ↦ inl (some_inj (subst (λ b. (if b then some x else none) ≡ some y) own h))
  | inr other ↦ absurd (cc)
]
any-pick org x (some z) {y} h = elim (Bool-cases (x.organization_id == org && newer x z)) [
  | inl chosen ↦ inl (some_inj (subst (λ b. (if b then some x else some z) ≡ some y) chosen h))
  | inr kept ↦ inr (subst (λ b. (if b then some x else some z) ≡ some y) kept h)
]

-- The row that is chosen stands in the table.
pub newest_of-any :
    (org : ℕ) (rows : List Subscription) {y : Subscription}
    → newest_of org rows ≡ some y
    → any (subscription_has_id y.id) rows ≡ true
newest_of-any org [] h = unfold newest_of in cc
newest_of-any org (x ∷ rows) {y} h =
    elim (any-pick org x (newest_of org rows) (sym (newest_of-pick org x rows) ∙ h)) [
      | inl same ↦ ground (arith, ap (λ (z : Subscription). z.id) same)
      | inr below ↦ ground (arith, newest_of-any org rows below)
    ]

newest_of-NoneNewer :
    (org : ℕ) (rows : List Subscription) → All (NoneNewer org (newest_of org rows)) rows
unfolding newest_of
newest_of-NoneNewer org [] = tt
newest_of-NoneNewer org (x ∷ rows) = rw (newest_of-pick org x rows) (
  pick_self org x (newest_of org rows),
  All-pick org x (newest_of org rows) rows (newest_of-NoneNewer org rows),
)

-- The primary subscription is one of the organization, and none of the organization's is newer by the
-- time of its update and then by its id; there is none only if the organization has none. The query
-- changes nothing.
get_primary_subscription_lem :
    (org : ℕ) (s : Session)
    → (o : Option Subscription) × (get_primary_subscription org s ≡ (ok o, s))
      × BelongsTo org o
      × All (NoneNewer org o) s.tables.subscriptions
unfolding get_primary_subscription
get_primary_subscription_lem org s = (
  newest_of org s.tables.subscriptions,
  refl,
  newest_of-BelongsTo org s.tables.subscriptions,
  newest_of-NoneNewer org s.tables.subscriptions,
)

-- Who may be cancelled at once.
abbrev pub IsCancelable : Status → Type 0
IsCancelable canceled = ⊥
IsCancelable unpaid = ⊥
IsCancelable _ = Unit

cancelable : (st : Status) → IsCancelable st → transition st canceled ≡ some canceled
unfolding transition
cancelable canceled h = elim h [ ]
cancelable unpaid h = elim h [ ]
cancelable _ h = refl

not_cancelable : (st : Status) → ¬ IsCancelable st → transition st canceled ≡ none
unfolding transition
not_cancelable canceled h = refl
not_cancelable unpaid h = refl
not_cancelable _ h = absurd (h tt)

-- An immediate cancellation of a stored subscription that may be cancelled returns the canceled row,
-- with the time read from the clock, without the end-of-period mark and otherwise as it was; that row
-- is stored with the time of its update, no other subscription changes, and the outbox holds the event under the subscription's key.
pub cancel_subscription-now :
    (x : Subscription) (s : Session) (org : String)
    → IsCancelable x.status
    → subscription_by_id x.id s.tables ≡ some x
    → org_public_id x.organization_id s.tables ≡ some org
    → let (r, s') = cancel_subscription x false s in
      let row = record x {
        status = canceled;
        canceled_at = some (s.host.clock s.readings);
        cancel_at_period_end = false;
      } in
      (r ≡ ok row)
      × (subscription_by_id x.id s'.tables ≡ some (record row { updated_at = s.transaction_time }))
      × ((id : ℕ) → id ≢ x.id → subscription_by_id id s'.tables ≡ subscription_by_id id s.tables)
      × (is_enqueued ("subscription:" ⧺ (x.public_id ⧺ ":canceled")) s'.tables ≡ true)
unfolding cancel_subscription
cancel_subscription-now x s org can stored known = rw (cancelable x.status can) (
    rw known (
      rw enqueue_outbox_lem (
        refl,
        find-save x.id
            (stamped (canceled_row x canceled (s.host.clock s.readings)) s.transaction_time)
            s.tables.subscriptions refl stored,
        λ id ne.
            find-save_ne x.id id
              (stamped (canceled_row x canceled (s.host.clock s.readings)) s.transaction_time)
              s.tables.subscriptions refl ne,
        any-outbox_after_self _ _,
      )))

-- A subscription that is canceled or unpaid already cannot be cancelled at once: the call raises and
-- changes nothing.
pub cancel_subscription-refused :
    (x : Subscription) (s : Session)
    → ¬ IsCancelable x.status
    → cancel_subscription x false s ≡ (err (illegal_transition (illegal_text x.status canceled)), s)
unfolding cancel_subscription
cancel_subscription-refused x s no_way = rw (not_cancelable x.status no_way) refl
