-- ===== src/Invoices/Laws.antt =====
-- Creating an invoice, also against other transactions: src/billing_platform/services/invoices.py.
use saas_billing_entitlement.Prelude.{
  true, false, ◌&&◌, not, is_some, ◌⊎◌, Bool-cases, [], ◌∷◌, ap, ◌+◌, ◌≡◌, refl, ◌∙◌, inl, inr,
  none, some, Option-cases, String, List, ◌++◌, find_row, find_row-append, find_row-skip,
  find_row-ends, find_row-holds,
}
use saas_billing_entitlement.Prelude.Text.{eq_iff, eq_refl}
use saas_billing_entitlement.Db.Rows.{Invoice, Tables}
use saas_billing_entitlement.Db.Session.{Session, ok, err, integrity_error}
use saas_billing_entitlement.Invoices.{
  add_invoice, Draft, invoice_by_key, invoice_has_key, has_owner, others_commit, draft_of,
  flush_draft, create_unless, create_draft_invoice,
}

-- The session in which `create_draft_invoice` flushes its row.
abbrev before_flush : List Invoice → Session → Session
before_flush rivals s =
    (others_commit rivals (record s { uuids = s.uuids + 1; next_id = s.next_id + 1 })).1

abbrev pub new_draft : Draft → Session → Invoice
new_draft d s =
    draft_of d s.next_id (s.host.uuid7 s.uuids) (s.host.upper d.currency) s.transaction_time

create-fresh :
    (rivals : List Invoice) (d : Draft) (s : Session)
    → invoice_by_key d.idempotency_key s.tables ≡ none
    → create_draft_invoice rivals d s
      ≡ flush_draft
          (new_draft d s)
          (has_owner d s.tables
            && not (
                is_some
                  (find_row (invoice_has_key d.idempotency_key) (s.tables.invoices ++ rivals))))
          (before_flush rivals s)
unfolding create_draft_invoice create_unless others_commit
create-fresh rivals d s fresh = rw fresh

pub create-existing :
    (rivals : List Invoice) (d : Draft) (s : Session) {i : Invoice}
    → invoice_by_key d.idempotency_key s.tables ≡ some i
    → create_draft_invoice rivals d s ≡ (ok i, s)
unfolding create_draft_invoice create_unless
create-existing rivals d s there = rw there

-- What `create_draft_invoice` promises of its result and its final session.
pub record Created (d : Draft) (i : Invoice) (t : Tables) : Type 0 where
  pub under_key : i.idempotency_key ≡ d.idempotency_key
  pub stored : invoice_by_key d.idempotency_key t ≡ some i

under_key-of_found :
    (key : String) (t : Tables) (i : Invoice)
    → invoice_by_key key t ≡ some i
    → i.idempotency_key ≡ key
under_key-of_found key t i h =
    (eq_iff i.idempotency_key key).0 (find_row-holds (invoice_has_key key) t.invoices h)

-- No rival has the key: the new row is written.
written :
    (rivals : List Invoice) (d : Draft) (s : Session)
    → invoice_by_key d.idempotency_key s.tables ≡ none
    → find_row (invoice_has_key d.idempotency_key) rivals ≡ none
    → let r = flush_draft (new_draft d s) true (before_flush rivals s) in
      (i : Invoice) × (r.0 ≡ ok i) × Created d i r.1.tables
unfolding flush_draft others_commit
written rivals d s fresh alone = (
  new_draft d s,
  refl,
  record {
    under_key = refl;
    stored =
        find_row-append (invoice_has_key d.idempotency_key) (s.tables.invoices ++ rivals)
          (new_draft d s)
          (find_row-skip (invoice_has_key d.idempotency_key) s.tables.invoices rivals fresh ∙ alone)
        ∙ rw (eq_refl d.idempotency_key) refl;
  },
)

-- What a refused flush leads to: an invoice under the key is found after the rollback, or none is.
Rejected : Draft → List Invoice → Session → Type 0
unfolding others_commit
Rejected d rivals s =
    let r = flush_draft (new_draft d s) false (before_flush rivals s) in
    ((i : Invoice) × (r.0 ≡ ok i) × Created d i r.1.tables)
    ⊎ ((find_row (invoice_has_key d.idempotency_key) rivals ≡ none)
        × (r.0 ≡ err integrity_error)
        × (r.1.tables.invoices ≡ s.committed.invoices ++ rivals))

rejected : (rivals : List Invoice) (d : Draft) (s : Session) → Rejected d rivals s
unfolding flush_draft others_commit Rejected
rejected rivals d s =
    let rows = s.committed.invoices ++ rivals in
    elim (Option-cases (find_row (invoice_has_key d.idempotency_key) rows)) [
      | inr (i, found) ↦ inl (
        i,
        rw found refl,
        rw found (record {
          under_key =
              (eq_iff i.idempotency_key d.idempotency_key).0
                (find_row-holds (invoice_has_key d.idempotency_key) rows found);
          stored = found;
        }),
      )
      | inl absent ↦ inr (
        elim (Option-cases (find_row (invoice_has_key d.idempotency_key) rivals)) [
          | inl alone ↦ alone
          | inr (r, raced) ↦
              let (i, found) =
                find_row-ends (invoice_has_key d.idempotency_key) s.committed.invoices rivals
                  raced in
              cc
        ],
        rw absent refl,
        rw absent refl,
      )
    ]

-- Whatever invoices other transactions commit between the lookup and the insertion, the call returns an
-- invoice under the key, and that invoice is the one stored: its own row, the one that was there, or,
-- after a rollback, the one that another transaction was faster to commit. It raises `IntegrityError`,
-- with the tables rolled back, only where the draft names an organization or a subscription that has no
-- row.
pub create_draft_invoice-Created :
    (rivals : List Invoice) (d : Draft) (s : Session)
    → let (result, s') = create_draft_invoice rivals d s in
      ((i : Invoice) × (result ≡ ok i) × Created d i s'.tables)
      ⊎ ((has_owner d s.tables ≡ false)
          × (result ≡ err integrity_error)
          × (s'.tables.invoices ≡ s.committed.invoices ++ rivals))
unfolding Rejected
create_draft_invoice-Created rivals d s =
    elim (Option-cases (invoice_by_key d.idempotency_key s.tables)) [
      | inr (i, there) ↦ inl (
        i,
        rw (create-existing rivals d s there) refl,
        rw (create-existing rivals d s there) (record {
          under_key = under_key-of_found d.idempotency_key s.tables i there;
          stored = there;
        }),
      )
      | inl fresh ↦
          rw
            (
              create-fresh rivals d s fresh,
              find_row-skip (invoice_has_key d.idempotency_key) s.tables.invoices rivals fresh,
            )
            (elim (Bool-cases (has_owner d s.tables)) [
              | inr unknown ↦ rw unknown (elim (rejected rivals d s) [
                | inl created ↦ inl created
                | inr (_, raised, rows) ↦ inr (refl, raised, rows)
              ])
              | inl known ↦
                  rw known
                    (elim (Option-cases (find_row (invoice_has_key d.idempotency_key) rivals)) [
                      | inl alone ↦ rw alone (inl (written rivals d s fresh alone))
                      | inr (r, raced) ↦ rw raced (elim (rejected rivals d s) [
                        | inl created ↦ inl created
                        | inr (alone, raised, rows) ↦ cc
                      ])
                    ])
            ])
    ]

append_nil : (rows : List Invoice) → rows ++ [] ≡ rows
append_nil [] = refl
append_nil (i ∷ rows) = ap (λ xs. i ∷ xs) (append_nil rows)

-- With no rival, a draft of a known owner under a fresh key is its new row.
pub create-alone :
    (d : Draft) (s : Session)
    → invoice_by_key d.idempotency_key s.tables ≡ none
    → has_owner d s.tables ≡ true
    → create_draft_invoice [] d s ≡ (
      ok (new_draft d s),
      record s {
        tables = add_invoice (new_draft d s) s.tables;
        next_id = s.next_id + 1;
        uuids = s.uuids + 1;
      },
    )
unfolding others_commit flush_draft
create-alone d s fresh known =
    create-fresh [] d s fresh
    ∙ rw (append_nil s.tables.invoices, append_nil s.committed.invoices, fresh) (rw known refl)
