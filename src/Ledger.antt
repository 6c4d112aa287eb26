-- ===== src/Ledger.antt =====
-- The append-only ledger: src/billing_platform/services/ledger.py.
pub mod Laws
use saas_billing_entitlement.Prelude.{
  ℕ, ◌==◌, Bool, Option, none, some, String, List, [], ◌∷◌, ◌++◌, if◌then◌else◌, any, find_row,
}
use saas_billing_entitlement.Prelude.Int.{ℤ, neg}
use saas_billing_entitlement.Prelude.Text.{str_eq, str_ℕ, ◌⧺◌}
use saas_billing_entitlement.Db.Json.{Json, Dict, str, int, obj, to_fields}
use saas_billing_entitlement.Db.Rows.{
  Organization, Subscription, LedgerEntry, EntryType, reversal, entry_type_value, Tables,
}
use saas_billing_entitlement.Db.Session.{
  Session, Error, ledger_entry_not_found, Exec, pure, raise, gets, select, scalar_one, modify,
  new_id, new_uuid, ◌>>=◌, ◌>>◌,
}
use saas_billing_entitlement.Outbox.{Fact, enqueue_outbox}

-- The keyword arguments of `LedgerService.post`; `metadata or {}` is `metadata`.
pub record Posting : Type 0 where
  pub organization_id : ℕ
  pub entry_type : EntryType
  pub amount_cents : ℤ
  pub currency : String
  pub idempotency_key : String
  pub correlation_id : String
  pub subscription_id : Option ℕ
  pub invoice_id : Option ℕ
  pub quantity : Option ℤ
  pub metadata : Dict

abbrev pub entry_has_key : String → LedgerEntry → Bool
entry_has_key key e = str_eq e.idempotency_key key

-- `get_entry_by_idempotency_key`
abbrev pub entry_by_key : String → Tables → Option LedgerEntry
entry_by_key key t = find_row (entry_has_key key) t.ledger

-- `get_entry`
abbrev pub entry_by_id : ℕ → Tables → Option LedgerEntry
entry_by_id id t = find_row (λ (e : LedgerEntry). e.id == id) t.ledger

abbrev pub org_in : ℕ → List Organization → Option String
org_in id rows = elim (find_row (λ (o : Organization). o.id == id) rows) [
  | none ↦ none
  | some o ↦ some o.public_id
]

abbrev pub org_public_id : ℕ → Tables → Option String
org_public_id id t = org_in id t.organizations

abbrev pub sub_public_id : ℕ → Tables → Option String
sub_public_id id t = elim (find_row (λ (x : Subscription). x.id == id) t.subscriptions) [
  | none ↦ none
  | some x ↦ some x.public_id
]

-- One more key of a payload, where its value was found.
abbrev optional_key : String → Option String → Dict
optional_key key none = []
optional_key key (some v) = (key, str v) ∷ []

abbrev subscription_key : Option ℕ → Tables → Dict
subscription_key none t = []
subscription_key (some id) t = optional_key "subscription_public_id" (sub_public_id id t)

abbrev entry_public_id : ℕ → Tables → Option String
entry_public_id id t = elim (entry_by_id id t) [ none ↦ none | some e ↦ some e.public_id ]

abbrev reverses_key : Option ℕ → Tables → Dict
reverses_key none t = []
reverses_key (some id) t = optional_key "reverses_entry_public_id" (entry_public_id id t)

abbrev metadata_key : Dict → Dict
metadata_key [] = []
metadata_key (e ∷ rest) = ("metadata", obj (to_fields (e ∷ rest))) ∷ []

unfoldable pub posted_payload : LedgerEntry → String → Tables → Dict
posted_payload e org t =
    ("entry_public_id", str e.public_id)
    ∷ ("entry_type", str (entry_type_value e.entry_type))
    ∷ ("amount_cents", int e.amount_cents)
    ∷ ("currency", str e.currency)
    ∷ ("organization_public_id", str org)
    ∷ ("correlation_id", str e.correlation_id)
    ∷ (subscription_key e.subscription_id t
        ++ (reverses_key e.reverses_entry_id t ++ metadata_key e.metadata))

-- `_enqueue_entry_posted`
unfoldable pub enqueue_entry_posted : LedgerEntry → String → Exec (Unit {0})
enqueue_entry_posted e key = do
  found ← select (org_public_id e.organization_id)
  org ← scalar_one found
  payload ← select (posted_payload e org)
  enqueue_outbox (record {
    aggregate_type = "ledger";
    aggregate_id = e.public_id;
    event_type = "ledger.entry_posted";
    payload = payload;
    idempotency_key = key;
    partition_key = str_ℕ e.organization_id;
  })

abbrev pub add_entry : LedgerEntry → Tables → Tables
add_entry e t = record t { ledger = t.ledger ++ e ∷ [] }

-- `session.add(entry)` and `session.flush()`, then the event.
unfoldable pub insert_entry : LedgerEntry → Exec LedgerEntry
unfolding enqueue_entry_posted
insert_entry e = do
  modify (add_entry e)
  enqueue_entry_posted e (e.idempotency_key ⧺ ":ledger.entry_posted")
  pure e

abbrev posted_entry : Posting → ℕ → String → String → LedgerEntry
posted_entry p id public_id currency = record {
  id = id;
  public_id = public_id;
  organization_id = p.organization_id;
  subscription_id = p.subscription_id;
  invoice_id = p.invoice_id;
  entry_type = p.entry_type;
  amount_cents = p.amount_cents;
  currency = currency;
  quantity = p.quantity;
  reverses_entry_id = none;
  idempotency_key = p.idempotency_key;
  correlation_id = p.correlation_id;
  metadata = p.metadata;
}

abbrev reversal_entry : LedgerEntry → ℕ → String → String → String → LedgerEntry
reversal_entry original id public_id key correlation_id = record {
  id = id;
  public_id = public_id;
  organization_id = original.organization_id;
  subscription_id = original.subscription_id;
  invoice_id = original.invoice_id;
  entry_type = reversal;
  amount_cents = neg original.amount_cents;
  currency = original.currency;
  quantity = original.quantity;
  reverses_entry_id = some original.id;
  idempotency_key = key;
  correlation_id = correlation_id;
  metadata =
      ("reversed_entry_public_id", str original.public_id)
      ∷ ("reversed_entry_type", str (entry_type_value original.entry_type))
      ∷ [];
}

-- The rest of `post`, once the key has been looked up.
unfoldable pub post_unless : Posting → Option LedgerEntry → Exec LedgerEntry
unfolding insert_entry
post_unless p (some existing) = pure existing
post_unless p none = do
  id ← new_id
  public_id ← new_uuid
  upper ← gets (λ s. s.host.upper)
  insert_entry (posted_entry p id public_id (upper p.currency))

-- `LedgerService.post`
unfoldable pub post : Posting → Exec LedgerEntry
unfolding post_unless
post p = do existing ← select (entry_by_key p.idempotency_key); post_unless p existing

unfoldable pub reverse_unless :
    LedgerEntry → String → String → Option LedgerEntry → Exec LedgerEntry
unfolding insert_entry
reverse_unless original key correlation_id (some existing) = pure existing
reverse_unless original key correlation_id none = do
  id ← new_id
  public_id ← new_uuid
  insert_entry (reversal_entry original id public_id key correlation_id)

unfoldable pub reverse_found : Option LedgerEntry → String → String → Exec LedgerEntry
unfolding reverse_unless
reverse_found none key correlation_id = raise ledger_entry_not_found
reverse_found (some original) key correlation_id = do
  existing ← select (entry_by_key key)
  reverse_unless original key correlation_id existing

-- `LedgerService.reverse`
unfoldable pub reverse : ℕ → String → String → Exec LedgerEntry
unfolding reverse_found
reverse entry_id key correlation_id = do
  original ← select (entry_by_id entry_id)
  reverse_found original key correlation_id
