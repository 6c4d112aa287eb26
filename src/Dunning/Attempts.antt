-- ===== src/Dunning/Attempts.antt =====
-- Executing the attempts that are due: src/billing_platform/services/dunning.py. What the payment
-- provider answers to a retry is an argument, and may differ by attempt.
use saas_billing_entitlement.Prelude.{
  ℕ, ◌+◌, ◌==◌, ltb, leb, Bool, true, false, ◌&&◌, ◌||◌, Option, none, some, is_some, is_none,
  String, List, [], ◌∷◌, if◌then◌else◌, find_row, update_rows, where_rows,
}
use saas_billing_entitlement.Prelude.Int.{pos}
use saas_billing_entitlement.Prelude.Text.{str_eq, str_ℕ, ◌⧺◌}
use saas_billing_entitlement.Db.Json.{as_str, is_text, str, int, Dict, get, str_or_null}
use saas_billing_entitlement.Db.Rows.{
  Invoice, InvoiceStatus, open_invoice, DunningCampaign, DunningAttempt, AttemptResult, succeeded,
  failed_result, skipped_result, CampaignStatus, running, completed, exhausted,
}
use saas_billing_entitlement.Db.Session.{
  Result, ok, err, Exec, pure, raise, select, scalar_one, modify, ◌>>=◌, ◌>>◌,
}
use saas_billing_entitlement.Outbox.{Fact, enqueue_outbox}
use saas_billing_entitlement.Ledger.{org_public_id, sub_public_id}
use saas_billing_entitlement.Dunning.Campaigns.{is_status, campaign_has_id, save_campaign}

-- The payment provider: the answer to a retry of an invoice at an attempt.
abbrev pub Provider : Type 0
Provider = String → String → Result Dict

abbrev is_open : InvoiceStatus → Bool
is_open open_invoice = true
is_open _ = false

abbrev optional_is : Option ℕ → ℕ → Bool
optional_is none n = false
optional_is (some m) n = m == n

abbrev is_retryable : ℕ → Invoice → Bool
is_retryable sub i =
    optional_is i.subscription_id sub && (is_open i.status && is_some i.external_invoice_id)

-- `_find_open_invoice_for_subscription`: the newest of them.
unfoldable pub newest_open : ℕ → List Invoice → Option Invoice
newest_open sub [] = none
newest_open sub (i ∷ rest) = elim (newest_open sub rest) [
  | none ↦ if is_retryable sub i then some i else none
  | some j ↦ if is_retryable sub i && leb j.created_at i.created_at then some i else some j
]

-- Whether the payment succeeded, and the charge.
abbrev charge_of : Dict → Option String
charge_of d = as_str (get "latest_charge" d)

abbrev pub read_retry : Result Dict → Exec (Bool × Option String)
read_retry (err e) = raise e
read_retry (ok d) = pure (is_text (as_str (get "status" d)) "paid", charge_of d)

abbrev pub external_id : Option Invoice → Option String
external_id none = none
external_id (some i) = i.external_invoice_id

abbrev pub retry_at : Provider → String → Option String → Exec (Bool × Option String)
retry_at provider attempt_id none = pure (false, none)
retry_at provider attempt_id (some id) = read_retry (provider attempt_id id)

unfoldable pub retry_payment : Provider → DunningAttempt → ℕ → Exec (Bool × Option String)
retry_payment provider a sub = do
  invoice ← select (λ t. newest_open sub t.invoices)
  retry_at provider a.id (external_id invoice)

-- `_event_type_for_attempt`
unfoldable pub event_type_for_attempt : ℕ → Bool → String
event_type_for_attempt attempt_no retry_succeeded =
    if attempt_no == 1
    then "dunning.attempt_scheduled"
    else if attempt_no == 3
    then "dunning.final_notice"
    else if retry_succeeded
    then "dunning.attempt_succeeded"
    else "dunning.attempt_failed"

abbrev pub result_of : Bool → AttemptResult
result_of true = succeeded
result_of false = failed_result

abbrev result_value : AttemptResult → String
result_value succeeded = "succeeded"
result_value failed_result = "failed"
result_value skipped_result = "skipped"

abbrev pub executed : DunningAttempt → ℕ → Bool → Option String → DunningAttempt
executed a now paid' charge = record a {
  executed_at = some now;
  result = some (result_of paid');
  external_charge_id = charge;
}

abbrev pub attempt_has_id : String → DunningAttempt → Bool
attempt_has_id id a = str_eq a.id id

unfoldable pub save_attempt : DunningAttempt → Exec (Unit {0})
save_attempt a =
    modify (λ t. record t { attempts = update_rows (attempt_has_id a.id) (λ _. a) t.attempts })

unfoldable pub attempt_fact :
    DunningAttempt → DunningCampaign → Bool → Option String → String → String → Fact
attempt_fact a c paid' charge org sub = record {
  aggregate_type = "dunning_campaign";
  aggregate_id = c.id;
  event_type = event_type_for_attempt a.attempt_no paid';
  payload =
      ("campaign_id", str c.id)
      ∷ ("organization_public_id", str org)
      ∷ ("subscription_public_id", str sub)
      ∷ ("attempt_no", int (pos a.attempt_no))
      ∷ ("result", str (result_value (result_of paid')))
      ∷ ("external_charge_id", str_or_null charge)
      ∷ [];
  idempotency_key = "dunning:" ⧺ (c.id ⧺ (":attempt:" ⧺ str_ℕ a.attempt_no));
  partition_key = str_ℕ c.organization_id;
}

-- The status of the campaign after an attempt.
unfoldable pub next_status : CampaignStatus → ℕ → Bool → CampaignStatus
next_status status attempt_no paid' =
    if paid' then completed else if attempt_no == 3 then exhausted else status

abbrev pub advanced : DunningCampaign → ℕ → Bool → DunningCampaign
advanced c attempt_no paid' = record c { status = next_status c.status attempt_no paid' }

-- The rest of `_execute_attempt`, from the answer to the retry.
unfoldable pub record_attempt :
    ℕ → DunningAttempt → DunningCampaign → Bool → Option String → Exec (Unit {0})
record_attempt now a c paid' charge = do
  save_attempt (executed a now paid' charge)
  org_found ← select (org_public_id c.organization_id)
  org ← scalar_one org_found
  sub_found ← select (sub_public_id c.subscription_id)
  sub ← scalar_one sub_found
  enqueue_outbox (attempt_fact a c paid' charge org sub)
  save_campaign (advanced c a.attempt_no paid')

-- `_execute_attempt` on an attempt and its loaded campaign.
unfoldable pub execute_attempt : Provider → ℕ → DunningAttempt → DunningCampaign → Exec (Unit {0})
unfolding retry_payment record_attempt
execute_attempt provider now a c = do
  (paid', charge) ← retry_payment provider a c.subscription_id
  record_attempt now a c paid' charge

-- The campaign of an attempt, as the session holds it.
abbrev pub campaign_of_attempt : DunningAttempt → List DunningCampaign → Option DunningCampaign
campaign_of_attempt a = find_row (campaign_has_id a.campaign_id)

abbrev is_running : Option DunningCampaign → Bool
is_running none = false
is_running (some c) = is_status c.status running

-- An attempt that the query selects: not executed, due, and of an active campaign.
abbrev pub is_due : ℕ → List DunningCampaign → DunningAttempt → Bool
is_due now cs a =
    is_running (campaign_of_attempt a cs) && (is_none a.executed_at && leb a.scheduled_at now)

-- The order of the query: by `scheduled_at`, then by `attempt_no`.
abbrev before : DunningAttempt → DunningAttempt → Bool
before a b =
    ltb a.scheduled_at b.scheduled_at
    || (a.scheduled_at == b.scheduled_at && leb a.attempt_no b.attempt_no)

unfoldable pub insert_ordered : DunningAttempt → List DunningAttempt → List DunningAttempt
insert_ordered a [] = a ∷ []
insert_ordered a (b ∷ rest) =
    let later = insert_ordered a rest in if before a b then a ∷ b ∷ rest else b ∷ later

unfoldable pub ordered : List DunningAttempt → List DunningAttempt
unfolding insert_ordered
ordered [] = []
ordered (a ∷ rest) = insert_ordered a (ordered rest)

abbrev pub execute_with : Provider → ℕ → DunningAttempt → Option DunningCampaign → Exec (Unit {0})
execute_with provider now a none = pure tt
execute_with provider now a (some c) = execute_attempt provider now a c

-- The loop: each attempt goes with its campaign as it stands by then, and counts one.
unfoldable pub execute_all : Provider → ℕ → List DunningAttempt → Exec ℕ
execute_all provider now [] = pure 0
execute_all provider now (a ∷ rest) = do
  c ← select (λ t. campaign_of_attempt a t.campaigns)
  execute_with provider now a c
  n ← execute_all provider now rest
  pure (n + 1)

-- `process_due_attempts`; the Boolean is `dunning_enabled`.
unfoldable pub process_due_attempts : Bool → Provider → ℕ → Exec ℕ
unfolding execute_all ordered
process_due_attempts false provider now = pure 0
process_due_attempts true provider now = do
  due ← select (λ t. ordered (where_rows (is_due now t.campaigns) t.attempts))
  execute_all provider now due
