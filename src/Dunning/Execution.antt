-- ===== src/Dunning/Execution.antt =====
-- What executing the due attempts leaves alone: src/billing_platform/services/dunning.py.
use saas_billing_entitlement.Prelude.{
  ℕ, ◌+◌, ◌==◌, ◌≡◌, refl, sym, subst, ◌∙◌, Bool, true, false, ◌&&◌, inl, inr, Option, none, some,
  Option-cases, String, List, [], ◌∷◌, arith, if◌then◌else◌, find_row, find_row-holds, where_rows,
}
use saas_billing_entitlement.Prelude.Text.{eq_iff}
use saas_billing_entitlement.Db.Json.{Dict}
use saas_billing_entitlement.Db.Rows.{DunningCampaign, DunningAttempt, running, exhausted}
use saas_billing_entitlement.Db.Session.{Session, Result, Exec, ok, err, pure, continue, ◌>>=◌}
use saas_billing_entitlement.Outbox.Laws.{enqueue_outbox_lem}
use saas_billing_entitlement.Ledger.{org_public_id, sub_public_id}
use saas_billing_entitlement.Dunning.Campaigns.{
  is_status, is_active_for, campaign_has_id, save_campaign,
}
use saas_billing_entitlement.Dunning.Attempts.{
  Provider, retry_payment, newest_open, next_status, advanced, save_attempt, record_attempt,
  read_retry, retry_at, external_id, execute_attempt, execute_with, execute_all, ordered, is_due,
  campaign_of_attempt, process_due_attempts,
}
use saas_billing_entitlement.Dunning.Laws.{OneActive, overwrite-OneActive}

-- Nothing but attempts, campaigns and the outbox is written, and no campaign becomes active.
abbrev Contained : Session → Session → Type 0
Contained s s' =
    (s'.tables.ledger ≡ s.tables.ledger)
    × (s'.tables.invoices ≡ s.tables.invoices)
    × (s'.tables.subscriptions ≡ s.tables.subscriptions)
    × (OneActive s.tables.campaigns → OneActive s'.tables.campaigns)

Contained-refl : (s : Session) → Contained s s
Contained-refl s = (refl, refl, refl, λ one. one)

Contained-trans : (s t u : Session) → Contained s t → Contained t u → Contained s u
Contained-trans s t u (a, b, c, d) (a', b', c', d') = (a' ∙ a, b' ∙ b, c' ∙ c, λ one. d' (d one))

-- After an attempt the campaign is active only if it was.
unfinished-is_active :
    (c : DunningCampaign) (sub : ℕ) (last : Bool)
    → (c.subscription_id == sub && is_status (if last then exhausted else c.status) running) ≡ true
    → is_active_for sub c ≡ true
unfinished-is_active c sub true h = ground arith
unfinished-is_active c sub false h = h

advanced-is_active :
    (c : DunningCampaign) (n sub : ℕ) (paid' : Bool)
    → is_active_for sub (advanced c n paid') ≡ true
    → is_active_for sub c ≡ true
unfolding next_status
advanced-is_active c n sub true h = ground arith
advanced-is_active c n sub false h = unfinished-is_active c sub (n == 3) h

record_attempt-Contained :
    (now : ℕ) (a : DunningAttempt) (c : DunningCampaign) (paid' : Bool) (charge : Option String)
    (s : Session)
    → find_row (campaign_has_id c.id) s.tables.campaigns ≡ some c
    → Contained s (record_attempt now a c paid' charge s).1
unfolding record_attempt save_attempt save_campaign
record_attempt-Contained now a c paid' charge s h =
    elim (Option-cases (org_public_id c.organization_id s.tables)) [
      | inl e ↦ rw e (refl, refl, refl, λ one. one)
      | inr (org, e) ↦ elim (Option-cases (sub_public_id c.subscription_id s.tables)) [
        | inl k ↦ rw (e, k) (refl, refl, refl, λ one. one)
        | inr (sub, k) ↦
            rw (e, k)
              (rw enqueue_outbox_lem (
                refl,
                refl,
                refl,
                overwrite-OneActive c (advanced c a.attempt_no paid') s.tables.campaigns refl h
                    (λ n. advanced-is_active c a.attempt_no n paid'),
              ))
      ]
    ]

-- The provider's answer changes no table.
read_retry-state : (r : Result Dict) (s : Session) → (read_retry r s).1 ≡ s
read_retry-state (ok d) s = refl
read_retry-state (err e) s = refl

retry_at-state :
    (provider : Provider) (id : String) (invoice : Option String) (s : Session)
    → (retry_at provider id invoice s).1 ≡ s
retry_at-state provider id none s = refl
retry_at-state provider id (some invoice) s = read_retry-state (provider id invoice) s

retry_payment-state :
    (provider : Provider) (a : DunningAttempt) (sub : ℕ) (s : Session)
    → (retry_payment provider a sub s).1 ≡ s
unfolding retry_payment
retry_payment-state provider a sub s =
    retry_at-state provider a.id (external_id (newest_open sub s.tables.invoices)) s

-- What follows an answer.
answered-Contained :
    (now : ℕ) (a : DunningAttempt) (c : DunningCampaign) (s : Session)
    (p : Result (Bool × Option String) × Session)
    → p.1 ≡ s
    → find_row (campaign_has_id c.id) s.tables.campaigns ≡ some c
    → Contained s (continue p.0 (λ o. record_attempt now a c o.0 o.1) p.1).1
answered-Contained now a c s (ok o, t) e h =
    subst (λ (u : Session). Contained s (record_attempt now a c o.0 o.1 u).1) (sym e)
      (record_attempt-Contained now a c o.0 o.1 s h)
answered-Contained now a c s (err x, t) e h = subst (Contained s) (sym e) (Contained-refl s)

execute_attempt-Contained :
    (provider : Provider) (now : ℕ) (a : DunningAttempt) (c : DunningCampaign) (s : Session)
    → find_row (campaign_has_id c.id) s.tables.campaigns ≡ some c
    → Contained s (execute_attempt provider now a c s).1
unfolding execute_attempt
execute_attempt-Contained provider now a c s h =
    answered-Contained now a c s (retry_payment provider a c.subscription_id s)
      (retry_payment-state provider a c.subscription_id s) h

execute_with-Contained :
    (provider : Provider) (now : ℕ) (a : DunningAttempt) (s : Session) (o : Option DunningCampaign)
    → campaign_of_attempt a s.tables.campaigns ≡ o
    → Contained s (execute_with provider now a o s).1
execute_with-Contained provider now a s none h = Contained-refl s
execute_with-Contained provider now a s (some c) h = execute_attempt-Contained provider now a c s (
    subst (λ i. find_row (campaign_has_id i) s.tables.campaigns ≡ some c)
      (sym (
        (eq_iff c.id a.campaign_id).0
          (find_row-holds (campaign_has_id a.campaign_id) s.tables.campaigns h)))
      h)

counted-Contained :
    (s : Session) (p : Result ℕ × Session)
    → Contained s p.1
    → Contained s (continue p.0 (λ n. pure (n + 1)) p.1).1
counted-Contained s (ok n, t) h = h
counted-Contained s (err e, t) h = h

continued-Contained :
    (s : Session) (p : Result (Unit {0}) × Session) (k : Exec ℕ)
    → Contained s p.1
    → ((t : Session) → Contained t (k t).1)
    → Contained s (continue p.0 (λ _. k >>= λ n. pure (n + 1)) p.1).1
continued-Contained s (ok u, t) k h f =
    Contained-trans s t (continue (k t).0 (λ n. pure (n + 1)) (k t).1).1 h
      (counted-Contained t (k t) (f t))
continued-Contained s (err e, t) k h f = h

execute_all-Contained :
    (provider : Provider) (now : ℕ) (due : List DunningAttempt) (s : Session)
    → Contained s (execute_all provider now due s).1
unfolding execute_all
execute_all-Contained provider now [] s = Contained-refl s
execute_all-Contained provider now (a ∷ due) s =
    let c = campaign_of_attempt a s.tables.campaigns in
    continued-Contained s (execute_with provider now a c s) (execute_all provider now due)
      (execute_with-Contained provider now a s c refl) (execute_all-Contained provider now due)

process_due-Contained :
    (enabled : Bool) (provider : Provider) (now : ℕ) (s : Session)
    → Contained s (process_due_attempts enabled provider now s).1
unfolding process_due_attempts
process_due-Contained false provider now s = Contained-refl s
process_due-Contained true provider now s =
    execute_all-Contained provider now
      (ordered (where_rows (is_due now s.tables.campaigns) s.tables.attempts)) s

-- `process_due_attempts`, whatever the payment provider answers and also where it raises: the ledger,
-- the invoices and the subscriptions are unchanged, and if no subscription had two active campaigns
-- and no id two campaigns, that is still so.
pub process_due_attempts-OneActive :
    (enabled : Bool) (provider : Provider) (now : ℕ) (s : Session)
    → OneActive s.tables.campaigns
    → let t = (process_due_attempts enabled provider now s).1.tables in
      (t.ledger ≡ s.tables.ledger)
      × (t.invoices ≡ s.tables.invoices)
      × (t.subscriptions ≡ s.tables.subscriptions)
      × OneActive t.campaigns
process_due_attempts-OneActive enabled provider now s one =
    let (a, b, c, keeps) = process_due-Contained enabled provider now s in (a, b, c, keeps one)
