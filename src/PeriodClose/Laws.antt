-- ===== src/PeriodClose/Laws.antt =====
-- The lines of a closed period: src/billing_platform/services/period_close.py.
use Prim.Native.String.{compare}
use text.Mathlib.Text.{is_le}
use saas_billing_entitlement.Prelude.{
  ◌≡◌, refl, ap, sym, ◌∙◌, Bool-cases, inl, inr, Option, none, some, String, List, [], ◌∷◌,
}
use saas_billing_entitlement.Prelude.Int.{ℤ, pos, ◌+ℤ◌, int_laws}
use saas_billing_entitlement.Db.Rows.{Price, Invoice, draft}
use saas_billing_entitlement.Db.Session.{Session, Result, ok}
use saas_billing_entitlement.Invoices.{invoice_by_id, set_total, line_total_cents}
use saas_billing_entitlement.Invoices.Totals.{
  HasTotals, add_line_item-draft, add_line_item-HasTotals,
}
use saas_billing_entitlement.PeriodClose.{
  price_of, whole_units, usage_line, add_usage_line, add_usage_lines, insert_item, sort_items,
}

-- What the usage of a period costs: whole units times the price of the feature; a feature without a
-- metered price costs nothing.
abbrev charge_of : ℤ → Option Price → ℤ
charge_of quantity none = pos 0
charge_of quantity (some p) = line_total_cents (whole_units quantity) p.unit_amount_cents

unfoldable pub period_charges : List (String × Price) → List (String × ℤ) → ℤ
period_charges prices [] = pos 0
period_charges prices ((key, quantity) ∷ rest) =
    charge_of quantity (price_of key prices) +ℤ period_charges prices rest

-- All that adding lines cannot touch: what is neither an invoice nor a line nor the supply of UUIDs.
abbrev pub besides_invoices : Session → Session
besides_invoices s = record s {
  tables = record s.tables { invoices = []; line_items = [] };
  uuids = 0;
}

-- An invoice after lines of so many cents.
pub record Billed (i : Invoice) (cents : ℤ) (s : Session) (r : Result (Unit {0}) × Session)
    : Type 0 where
  pub done : r.0 ≡ ok tt
  pub totals : HasTotals r.1.tables
  pub found : invoice_by_id i.id r.1.tables ≡ some (set_total (i.total_amount_cents +ℤ cents) i)
  pub frame : besides_invoices r.1 ≡ besides_invoices s

+ℤ_zero : (a : ℤ) → a +ℤ pos 0 ≡ a
+ℤ_zero a = omega int_laws

+ℤ_assoc : (a b c : ℤ) → (a +ℤ b) +ℤ c ≡ a +ℤ (b +ℤ c)
+ℤ_assoc a b c = omega int_laws

add_usage_line-Billed :
    (i : Invoice) (key : String) (quantity : ℤ) (price : Option Price) (s : Session)
    → HasTotals s.tables
    → invoice_by_id i.id s.tables ≡ some i
    → i.status ≡ draft
    → Billed i (charge_of quantity price) s (add_usage_line i.id key quantity price s)
unfolding add_usage_line
add_usage_line-Billed i key quantity none s h there drafted = record {
  done = refl;
  totals = h;
  found = there ∙ ap (λ total. some (set_total total i)) (sym (+ℤ_zero i.total_amount_cents));
  frame = refl;
}
add_usage_line-Billed i key quantity (some p) s h there drafted =
    let l = usage_line i.id key quantity p in
    let run = add_line_item-draft l s i there drafted in
    let (done, totals, found, others) = add_line_item-HasTotals l s i h there drafted in
    rw done (record {
      done = refl;
      totals = totals;
      found = found;
      frame = ap (λ r. besides_invoices r.1) run;
    })

pub add_usage_lines-Billed :
    (i : Invoice) (prices : List (String × Price)) (usage : List (String × ℤ)) (s : Session)
    → HasTotals s.tables
    → invoice_by_id i.id s.tables ≡ some i
    → i.status ≡ draft
    → Billed i (period_charges prices usage) s (add_usage_lines i.id prices usage s)
unfolding add_usage_lines period_charges
add_usage_lines-Billed i prices [] s h there drafted = record {
  done = refl;
  totals = h;
  found = there ∙ ap (λ total. some (set_total total i)) (sym (+ℤ_zero i.total_amount_cents));
  frame = refl;
}
add_usage_lines-Billed i prices ((key, quantity) ∷ rest) s h there drafted =
    let first = add_usage_line-Billed i key quantity (price_of key prices) s h there drafted in
    let s1 = (add_usage_line i.id key quantity (price_of key prices) s).1 in
    let charge = charge_of quantity (price_of key prices) in
    let j = set_total (i.total_amount_cents +ℤ charge) i in
    let more = add_usage_lines-Billed j prices rest s1 first.totals first.found drafted in
    rw first.done (record {
      done = more.done;
      totals = more.totals;
      found =
          more.found
          ∙ ap (λ total. some (set_total total i))
              (+ℤ_assoc i.total_amount_cents charge (period_charges prices rest));
      frame = more.frame ∙ first.frame;
    })

add_swap : (a b c : ℤ) → a +ℤ (b +ℤ c) ≡ b +ℤ (a +ℤ c)
add_swap a b c = omega int_laws

insert-charges :
    (prices : List (String × Price)) (item : String × ℤ) (rest : List (String × ℤ))
    → period_charges prices (insert_item item rest) ≡ period_charges prices (item ∷ rest)
unfolding insert_item period_charges
insert-charges prices item [] = refl
insert-charges prices item (x ∷ rest) = elim (Bool-cases (is_le (compare item.0 x.0))) [
  | inl before ↦ rw before refl
  | inr after ↦ rw after (
      ap (λ a. charge_of x.1 (price_of x.0 prices) +ℤ a) (insert-charges prices item rest)
      ∙ add_swap _ _ (period_charges prices rest))
]

-- The order of the lines does not matter.
pub sort-charges :
    (prices : List (String × Price)) (usage : List (String × ℤ))
    → period_charges prices (sort_items usage) ≡ period_charges prices usage
unfolding sort_items period_charges
sort-charges prices [] = refl
sort-charges prices (item ∷ rest) =
    insert-charges prices item (sort_items rest)
    ∙ ap (λ a. charge_of item.1 (price_of item.0 prices) +ℤ a) (sort-charges prices rest)
