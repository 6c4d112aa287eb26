-- ===== src/PeriodClose.antt =====
-- Closing a billing period: src/billing_platform/services/period_close.py.
pub mod Laws
pub mod Charging
pub mod Closing
use Prim.Native.String.{compare}
use text.Mathlib.Text.{is_le}
use saas_billing_entitlement.Prelude.{
  ℕ, ◌/◌, ◌==◌, ltb, leb, Bool, true, false, ◌&&◌, ◌||◌, not, Option, none, some, is_some, String,
  List, [], ◌∷◌, ◌++◌, map, if◌then◌else◌, any, where_rows, find_row, update_rows,
}
use saas_billing_entitlement.Prelude.Int.{ℤ, pos, pos_part, ltb_ℤ, ◌+ℤ◌}
use saas_billing_entitlement.Prelude.Text.{str_eq, str_ℕ, ◌⧺◌}
use saas_billing_entitlement.Db.Json.{Json, str, int, obj, Dict, to_fields}
use saas_billing_entitlement.Db.Rows.{
  Subscription, Price, Invoice, open_invoice, UsageAggregate, LedgerEntry, EntryType, usage_charge,
  Tables,
}
use saas_billing_entitlement.Db.Session.{
  Host, Session, Error, subscription_required, invoice_not_found, Exec, pure, raise, gets, select,
  or_raise, scalar_one, modify, ◌>>=◌, ◌>>◌,
}
use saas_billing_entitlement.Outbox.{Fact, enqueue_outbox}
use saas_billing_entitlement.Ledger.{Posting, post, org_public_id}
use saas_billing_entitlement.Invoices.{
  Draft, Line, invoice_by_key, invoice_has_id, invoice_by_id, create_draft_invoice, add_line_item,
}
use saas_billing_entitlement.Subscriptions.{get_primary_subscription}
use saas_billing_entitlement.Usage.{usage_sum}

-- The keyword arguments of `close_billing_period`; the bounds are instants, and so need no
-- normalization.
pub record Period : Type 0 where
  pub organization_id : ℕ
  pub period_start : ℕ
  pub period_end : ℕ
  pub idempotency_key : String

pub record PeriodCloseResult : Type 0 where
  pub invoice_public_id : String
  pub invoice_id : ℕ
  pub total_amount_cents : ℤ
  pub ledger_entry_public_id : Option String

-- A dictionary's item: a key that is there keeps its place.
unfoldable pub put_price : String → Price → List (String × Price) → List (String × Price)
put_price key p [] = (key, p) ∷ []
put_price key p ((k, q) ∷ rest) =
    let later = put_price key p rest in if str_eq key k then (k, p) ∷ rest else (k, q) ∷ later

unfoldable pub price_of : String → List (String × Price) → Option Price
price_of key [] = none
price_of key ((k, p) ∷ rest) =
    let later = price_of key rest in if str_eq key k then some p else later

-- The key of a price that is loaded, and true.
abbrev metered_key : String → Price → Option String
metered_key plan p = elim p.metered_feature_key [
  | none ↦ none
  | some key ↦
      if str_eq p.plan_id plan
        && (p.is_active && (str_eq p.pricing_model "per_unit" && not (str_eq key "")))
      then some key
      else none
]

abbrev put_metered : Option String → Price → List (String × Price) → List (String × Price)
put_metered none p prices = prices
put_metered (some key) p prices = put_price key p prices

-- `_load_metered_prices`
unfoldable pub load_metered_prices :
    String → List Price → List (String × Price) → List (String × Price)
unfolding put_price
load_metered_prices plan [] prices = prices
load_metered_prices plan (p ∷ rest) prices =
    load_metered_prices plan rest (put_metered (metered_key plan p) p prices)

-- `GROUP BY feature_key`
unfoldable pub period_features : ℕ → ℕ → ℕ → List UsageAggregate → List String
period_features org from until [] = []
period_features org from until (x ∷ rest) =
    let later = period_features org from until rest in
    if x.organization_id == org && (leb from x.hour_start && ltb x.hour_start until)
    then x.feature_key ∷ where_rows (λ key. not (str_eq key x.feature_key)) later
    else later

unfoldable pub positive_usage : ℕ → ℕ → ℕ → List UsageAggregate → List String → List (String × ℤ)
unfolding usage_sum
positive_usage org from until rows [] = []
positive_usage org from until rows (key ∷ keys) =
    let later = positive_usage org from until rows keys in
    let quantity = usage_sum org key from until rows in
    if ltb_ℤ (pos 0) quantity then (key, quantity) ∷ later else later

-- `_snapshot_usage_by_feature`
unfoldable pub snapshot_usage_by_feature : ℕ → ℕ → ℕ → Tables → List (String × ℤ)
unfolding period_features positive_usage
snapshot_usage_by_feature org from until t =
    positive_usage org from until t.usage_aggregates
      (period_features org from until t.usage_aggregates)

-- `sorted` on the items, whose keys differ.
unfoldable pub insert_item : String × ℤ → List (String × ℤ) → List (String × ℤ)
insert_item item [] = item ∷ []
insert_item item (x ∷ rest) =
    let later = insert_item item rest in
    if is_le (compare item.0 x.0) then item ∷ x ∷ rest else x ∷ later

unfoldable pub sort_items : List (String × ℤ) → List (String × ℤ)
unfolding insert_item
sort_items [] = []
sort_items (item ∷ rest) = insert_item item (sort_items rest)

abbrev pub currency_of : List (String × Price) → String
currency_of [] = "USD"
currency_of ((key, p) ∷ rest) = p.currency

-- `int(quantity)` of a positive quantity in millionths.
abbrev pub whole_units : ℤ → ℤ
whole_units quantity = pos (pos_part quantity / 1000000)

abbrev pub usage_line : ℕ → String → ℤ → Price → Line
usage_line invoice key quantity p = record {
  invoice_id = invoice;
  description = "Usage: " ⧺ key;
  quantity = whole_units quantity;
  unit_amount_cents = p.unit_amount_cents;
  feature_key = some key;
}

unfoldable pub add_usage_line : ℕ → String → ℤ → Option Price → Exec (Unit {0})
add_usage_line invoice key quantity none = pure tt
add_usage_line invoice key quantity (some p) = do
  add_line_item (usage_line invoice key quantity p)
  pure tt

unfoldable pub add_usage_lines : ℕ → List (String × Price) → List (String × ℤ) → Exec (Unit {0})
unfolding add_usage_line price_of
add_usage_lines invoice prices [] = pure tt
add_usage_lines invoice prices ((key, quantity) ∷ rest) = do
  add_usage_line invoice key quantity (price_of key prices)
  add_usage_lines invoice prices rest

-- `sum(usage_by_feature.values(), Decimal(0))`
unfoldable pub total_usage : List (String × ℤ) → ℤ
total_usage [] = pos 0
total_usage ((key, quantity) ∷ rest) = quantity +ℤ total_usage rest

unfoldable pub period_charge : Period → Subscription → Invoice → ℤ → Host → Posting
period_charge c x i quantity host = record {
  organization_id = c.organization_id;
  entry_type = usage_charge;
  amount_cents = i.total_amount_cents;
  currency = i.currency;
  idempotency_key = c.idempotency_key ⧺ ":usage_charge";
  correlation_id = c.idempotency_key;
  subscription_id = some x.id;
  invoice_id = some i.id;
  quantity = some quantity;
  metadata =
      ("invoice_public_id", str i.public_id)
      ∷ ("period_start", str (host.isoformat c.period_start))
      ∷ ("period_end", str (host.isoformat c.period_end))
      ∷ [];
}

abbrev quantities_json : Host → List (String × ℤ) → Dict
quantities_json host usage = map (λ (e : String × ℤ). (e.0, str (host.decimal_text e.1))) usage

-- `_enqueue_period_closed`
unfoldable pub period_closed :
    Period → Subscription → Invoice → List (String × ℤ) → String → Host → Fact
period_closed c x i usage org host = record {
  aggregate_type = "usage";
  aggregate_id = i.public_id;
  event_type = "usage.period_closed";
  payload =
      ("organization_public_id", str org)
      ∷ ("subscription_public_id", str x.public_id)
      ∷ ("invoice_public_id", str i.public_id)
      ∷ ("period_start", str (host.isoformat c.period_start))
      ∷ ("period_end", str (host.isoformat c.period_end))
      ∷ ("total_amount_cents", int i.total_amount_cents)
      ∷ ("usage_quantities", obj (to_fields (quantities_json host usage)))
      ∷ [];
  idempotency_key = c.idempotency_key ⧺ ":usage.period_closed";
  partition_key = str_ℕ c.organization_id;
}

-- `_result_from_existing_invoice`
abbrev pub is_charge_of : ℕ → LedgerEntry → Bool
is_charge_of invoice e = elim e.entry_type [
  | usage_charge ↦ elim e.invoice_id [ none ↦ false | some id ↦ id == invoice ]
  | _ ↦ false
]

abbrev public_id_of : Option LedgerEntry → Option String
public_id_of none = none
public_id_of (some e) = some e.public_id

unfoldable pub existing_result : Invoice → Tables → PeriodCloseResult
existing_result i t = record {
  invoice_public_id = i.public_id;
  invoice_id = i.id;
  total_amount_cents = i.total_amount_cents;
  ledger_entry_public_id = public_id_of (find_row (is_charge_of i.id) t.ledger);
}

-- The opened invoice is charged and announced.
unfoldable pub charge_period :
    Period → Subscription → List (String × ℤ) → Invoice → Exec PeriodCloseResult
charge_period c x usage i = do
  host ← gets (λ s. s.host)
  entry ← post (period_charge c x i (total_usage usage) host)
  found ← select (org_public_id c.organization_id)
  org ← scalar_one found
  enqueue_outbox (period_closed c x i usage org host)
  pure (record {
    invoice_public_id = i.public_id;
    invoice_id = i.id;
    total_amount_cents = i.total_amount_cents;
    ledger_entry_public_id = some entry.public_id;
  })

abbrev pub opened : Invoice → Invoice
opened i = record i { status = open_invoice }

-- The draft is filled, and opened by a flush; the invoice is then what its row holds.
unfoldable pub fill_invoice :
    Period
    → Subscription
    → List (String × Price)
    → List (String × ℤ)
    → Invoice
    → Exec PeriodCloseResult
unfolding add_usage_lines charge_period
fill_invoice c x prices usage i = do
  add_usage_lines i.id prices (sort_items usage)
  modify (λ t. record t { invoices = update_rows (invoice_has_id i.id) opened t.invoices })
  found ← select (invoice_by_id i.id)
  filled ← or_raise found invoice_not_found
  charge_period c x usage filled

abbrev pub period_draft : Period → Subscription → List (String × Price) → Draft
period_draft c x prices = record {
  organization_id = c.organization_id;
  currency = currency_of prices;
  period_start = c.period_start;
  period_end = c.period_end;
  idempotency_key = c.idempotency_key;
  subscription_id = some x.id;
}

unfoldable pub close_unless : List Invoice → Period → Option Invoice → Exec PeriodCloseResult
unfolding fill_invoice
close_unless rivals c (some existing) = select (existing_result existing)
close_unless rivals c none = do
  primary ← get_primary_subscription c.organization_id
  x ← or_raise primary subscription_required
  prices ← select (λ t. load_metered_prices x.plan_id t.prices [])
  usage ← select (snapshot_usage_by_feature c.organization_id c.period_start c.period_end)
  i ← create_draft_invoice rivals (period_draft c x prices)
  fill_invoice c x prices usage i

-- `close_billing_period`; the list holds the invoices that other transactions commit meanwhile, as
-- for `create_draft_invoice`.
unfoldable pub close_billing_period : List Invoice → Period → Exec PeriodCloseResult
unfolding close_unless
close_billing_period rivals c = do
  existing ← select (invoice_by_key c.idempotency_key)
  close_unless rivals c existing
