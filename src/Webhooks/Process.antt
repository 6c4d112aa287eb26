-- ===== src/Webhooks/Process.antt =====
-- Receiving, processing and replaying: `persist_webhook` and `replay_webhook` of
-- src/billing_platform/services/webhooks.py, `process_webhook` of
-- src/billing_platform/services/webhook_processor.py.
use saas_billing_entitlement.Prelude.{
  ℕ, ◌+◌, Bool, true, false, Option, none, some, String, List, [], ◌∷◌, ◌++◌, if◌then◌else◌, any,
  find_row, update_rows,
}
use saas_billing_entitlement.Prelude.Text.{str_eq}
use saas_billing_entitlement.Db.Json.{Dict}
use saas_billing_entitlement.Db.Rows.{
  WebhookEvent, WebhookStatus, received, processing, processed, failed, skipped, Tables,
}
use saas_billing_entitlement.Db.Session.{
  Host, Error, is_data_error, pending_rollback, Result, ok, err, illegal_transition,
  webhook_processing, no_result, value_error, runtime_error, webhook_not_found, Exec, pure, raise,
  gets, select, or_raise, modify, new_uuid, now_utc, attempt, ◌>>=◌, ◌>>◌,
}
use saas_billing_entitlement.Webhooks.Handlers.{Surroundings, dispatch_event}

abbrev pub has_event_id : String → WebhookEvent → Bool
has_event_id id w = str_eq w.provider_event_id id

abbrev pub webhook_has_id : String → WebhookEvent → Bool
webhook_has_id id w = str_eq w.id id

abbrev pub webhook_by_id : String → Tables → Option WebhookEvent
webhook_by_id id t = find_row (webhook_has_id id) t.webhooks

-- The keyword arguments of `persist_webhook`.
pub record Delivery : Type 0 where
  pub provider_event_id : String
  pub event_type : String
  pub payload : Dict
  pub provider : String

abbrev pub received_row : Delivery → String → WebhookEvent
received_row d id = record {
  id = id;
  provider = d.provider;
  provider_event_id = d.provider_event_id;
  event_type = d.event_type;
  payload = d.payload;
  status = received;
  processing_attempts = 0;
  last_error = none;
  processed_at = none;
}

-- `ON CONFLICT DO NOTHING`, with what the insertion returns.
unfoldable pub persist_unless : Bool → Delivery → String → Exec (Option WebhookEvent)
persist_unless true d id = pure none
persist_unless false d id = do
  modify (λ t. record t { webhooks = t.webhooks ++ received_row d id ∷ [] })
  pure (some (received_row d id))

abbrev pub is_stored : String → Tables → Bool
is_stored id t = any (has_event_id id) t.webhooks

-- `persist_webhook`: `none` where the event is stored already.
unfoldable pub persist_webhook : Delivery → Exec (Option WebhookEvent)
unfolding persist_unless
persist_webhook d = do
  id ← new_uuid
  taken ← select (is_stored d.provider_event_id)
  persist_unless taken d id

-- A loaded row with its new values is flushed.
unfoldable pub save_webhook : WebhookEvent → Exec (Unit {0})
save_webhook w =
    modify (λ t. record t { webhooks = update_rows (webhook_has_id w.id) (λ _. w) t.webhooks })

-- `_TERMINAL_STATUSES`
abbrev pub is_terminal : WebhookStatus → Bool
is_terminal received = false
is_terminal processing = false
is_terminal _ = true

-- `str(exc)`
abbrev pub error_text : Host → Error → String
error_text host (illegal_transition text) = text
error_text host (webhook_processing text) = text
error_text host (no_result text) = text
error_text host (value_error text) = text
error_text host (runtime_error text) = text
error_text host e = host.exception_text e

abbrev pub begun : WebhookEvent → WebhookEvent
begun w = record w { status = processing; processing_attempts = w.processing_attempts + 1 }

abbrev pub failed_row : WebhookEvent → String → WebhookEvent
failed_row w text = record w { status = failed; last_error = some text }

abbrev pub processed_row : WebhookEvent → ℕ → WebhookEvent
processed_row w now = record w { status = processed; processed_at = some now }

-- What follows the `try`: the handlers of the exceptions, whose flush raises where one failed before, the early return for a skipped event, and success.
unfoldable pub settle : WebhookEvent → Result (Option (List ℕ)) → Exec (List ℕ)
settle w (err e) =
    if is_data_error e
    then raise pending_rollback
    else (do host ← gets (λ s. s.host); save_webhook (failed_row w (error_text host e)); pure [])
settle w (ok none) = do save_webhook (record w { status = skipped }); pure []
settle w (ok (some orgs)) = do now ← now_utc; save_webhook (processed_row w now); pure orgs

unfoldable pub run_webhook : Surroundings → WebhookEvent → Exec (List ℕ)
unfolding settle
run_webhook around w = do
  save_webhook w
  outcome ← attempt (dispatch_event around w)
  settle w outcome

unfoldable pub process_found : Surroundings → Option WebhookEvent → Exec (List ℕ)
unfolding run_webhook
process_found around none = pure []
process_found around (some w) =
    if is_terminal w.status then pure [] else run_webhook around (begun w)

-- `process_webhook`
unfoldable pub process_webhook : Surroundings → String → Exec (List ℕ)
unfolding process_found
process_webhook around id = do w ← select (webhook_by_id id); process_found around w

pub data ReplayOutcome : Type 0 where
  replayed already_processed : ReplayOutcome

pub record WebhookReplayResult : Type 0 where
  pub webhook_id : String
  pub outcome : ReplayOutcome
  pub status : WebhookStatus
  pub orgs_to_invalidate : List ℕ

abbrev pub is_done : WebhookStatus → Bool
is_done processed = true
is_done skipped = true
is_done _ = false

-- A failed or stuck row is received again.
abbrev pub reset_row : WebhookEvent → WebhookEvent
reset_row w = record w { status = received; last_error = none }

unfoldable pub reset_webhook : WebhookEvent → Exec (Unit {0})
unfolding save_webhook
reset_webhook w = elim w.status [
  | failed ↦ save_webhook (reset_row w)
  | processing ↦ save_webhook (reset_row w)
  | _ ↦ pure tt
]

-- The row is refreshed after the processing.
unfoldable pub replay_found : Surroundings → Option WebhookEvent → Exec WebhookReplayResult
unfolding reset_webhook process_webhook
replay_found around none = raise webhook_not_found
replay_found around (some w) =
    if is_done w.status
    then pure (record {
      webhook_id = w.id;
      outcome = already_processed;
      status = w.status;
      orgs_to_invalidate = [];
    })
    else (do
      reset_webhook w
      orgs ← process_webhook around w.id
      found ← select (webhook_by_id w.id)
      fresh ← or_raise found webhook_not_found
      pure (record {
        webhook_id = w.id;
        outcome = replayed;
        status = fresh.status;
        orgs_to_invalidate = orgs;
      }))

-- `replay_webhook`
unfoldable pub replay_webhook : Surroundings → String → Exec WebhookReplayResult
unfolding replay_found
replay_webhook around id = do w ← select (webhook_by_id id); replay_found around w
