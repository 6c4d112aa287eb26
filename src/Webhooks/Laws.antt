-- ===== src/Webhooks/Laws.antt =====
-- How the processing of a webhook ends: src/billing_platform/services/webhook_processor.py and
-- src/billing_platform/services/webhooks.py.
use saas_billing_entitlement.Prelude.{
  ℕ, ◌+◌, ◌≤◌, ◌≡◌, refl, ◌⊎◌, ap, sym, subst, ◌∙◌, true, false, Bool-cases, inl, inr, Option, none,
  some, String, List, [], ◌∷◌, ◌++◌, arith, if◌then◌else◌, find_row, find_row-holds,
  find_row-update_rows, count_rows, count_rows-append, any-false_count,
}
use saas_billing_entitlement.Prelude.Text.{eq_iff, eq_refl}
use saas_billing_entitlement.Db.Rows.{
  WebhookEvent, WebhookStatus, received, processing, processed, failed, skipped, Tables,
}
use saas_billing_entitlement.Db.Session.{Session, Result, ok, err, pending_rollback, is_refused}
use saas_billing_entitlement.Webhooks.Handlers.{Surroundings, dispatch_event}
use saas_billing_entitlement.Webhooks.Frame.{dispatch_event-Keeps}
use saas_billing_entitlement.Webhooks.Process.{
  has_event_id, webhook_has_id, webhook_by_id, Delivery, received_row, persist_unless,
  persist_webhook, is_stored, save_webhook, is_terminal, begun, settle, run_webhook, process_found,
  process_webhook, replayed, already_processed, is_done, reset_row, reset_webhook, replay_found,
  replay_webhook,
}

-- No event of the provider is stored twice.
abbrev pub HasUniqueEvents : Tables → Type 0
HasUniqueEvents t = (id : String) → count_rows (has_event_id id) t.webhooks ≤ 1

-- A delivery is stored once: if no event was stored twice, none is afterwards; a new event is returned
-- and stands at the end of the table of webhooks, with no other change of the tables, and for one that is
-- stored already nothing is returned and no table changes.
pub persist_webhook-once :
    (d : Delivery) (s : Session)
    → HasUniqueEvents s.tables
    → let (r, s') = persist_webhook d s in
      let row = received_row d (s.host.uuid7 s.uuids) in
      HasUniqueEvents s'.tables
      × (r ≡ ok (if is_stored d.provider_event_id s.tables then none else some row))
      × (s'.tables ≡ (
          if is_stored d.provider_event_id s.tables
          then s.tables
          else record s.tables { webhooks = s.tables.webhooks ++ row ∷ [] }))
unfolding persist_webhook persist_unless
persist_webhook-once d s unique = elim (Bool-cases (is_stored d.provider_event_id s.tables)) [
  | inl taken ↦ rw taken (unique, refl, refl)
  | inr fresh ↦ rw fresh (
    λ id. ground (
      arith,
      unique id,
      count_rows-append (has_event_id id) s.tables.webhooks
          (received_row d (s.host.uuid7 s.uuids) ∷ []),
      eq_iff d.provider_event_id id,
      any-false_count (has_event_id d.provider_event_id) s.tables.webhooks,
    ),
    refl,
    refl,
  )
]

-- A webhook under its id that needs no more processing, after so many attempts.
abbrev pub Settled : String → ℕ → Tables → Type 0
Settled id attempts t =
    (w : WebhookEvent) × (webhook_by_id id t ≡ some w)
    × (is_terminal w.status ≡ true)
    × (w.processing_attempts ≡ attempts)

settle-Settled :
    (w w0 : WebhookEvent) (r : Result (Option (List ℕ))) (s : Session)
    → webhook_by_id w.id s.tables ≡ some w0
    → is_refused r ≡ false
    → let (result, s') = settle w r s in
      (orgs : List ℕ) × (result ≡ ok orgs)
      × (w' : WebhookEvent) × (webhook_by_id w.id s'.tables ≡ some w')
      × (is_terminal w'.status ≡ true)
      × (w'.processing_attempts ≡ w.processing_attempts)
unfolding settle save_webhook
settle-Settled w w0 (err e) s h accepted = rw accepted (
  [],
  refl,
  _,
  find_row-update_rows (webhook_has_id w.id) _ s.tables.webhooks (eq_refl w.id) h,
  refl,
  refl,
)
settle-Settled w w0 (ok none) s h accepted = (
  [],
  refl,
  _,
  find_row-update_rows (webhook_has_id w.id) _ s.tables.webhooks (eq_refl w.id) h,
  refl,
  refl,
)
settle-Settled w w0 (ok (some orgs)) s h accepted = (
  orgs,
  refl,
  _,
  find_row-update_rows (webhook_has_id w.id) _ s.tables.webhooks (eq_refl w.id) h,
  refl,
  refl,
)

settle-refused :
    (w : WebhookEvent) (r : Result (Option (List ℕ))) (s : Session)
    → is_refused r ≡ true
    → (settle w r s).0 ≡ err pending_rollback
unfolding settle
settle-refused w (err e) s h = rw h refl
settle-refused w (ok a) s h = cc

-- How the handler ends on a webhook whose processing has begun.
abbrev pub handled : Surroundings → WebhookEvent → Session → Result (Option (List ℕ))
handled around w s = (dispatch_event around (begun w) (save_webhook (begun w) s).1).0

run_webhook-refused :
    (around : Surroundings) (w : WebhookEvent) (s : Session)
    → is_refused (handled around w s) ≡ true
    → (run_webhook around (begun w) s).0 ≡ err pending_rollback
unfolding run_webhook save_webhook
run_webhook-refused around w s h =
    settle-refused (begun w) (handled around w s)
      (dispatch_event around (begun w) (save_webhook (begun w) s).1).1 h

run_webhook-Settled :
    (around : Surroundings) (w w0 : WebhookEvent) (s : Session)
    → webhook_by_id w.id s.tables ≡ some w0
    → is_refused (handled around w s) ≡ false
    → let (result, s') = run_webhook around (begun w) s in
      (orgs : List ℕ) × (result ≡ ok orgs) × Settled w.id (w.processing_attempts + 1) s'.tables
unfolding run_webhook save_webhook
run_webhook-Settled around w0 w1 s h accepted =
    let w = begun w0 in
    let t = (save_webhook w s).1 in
    let saved : webhook_by_id w.id t.tables ≡ some w =
      find_row-update_rows (webhook_has_id w.id) w s.tables.webhooks (eq_refl w.id) h in
    let kept : webhook_by_id w.id (dispatch_event around w t).1.tables ≡ some w =
      ap (find_row (webhook_has_id w.id)) ((dispatch_event-Keeps around w).at t) ∙ saved in
    let (orgs, result, x, found, ended, attempts) =
      settle-Settled w w (dispatch_event around w t).0 (dispatch_event around w t).1 kept
        accepted in
    (orgs, result, (x, found, ended, attempts))

-- What a webhook that needs no more processing is left with.
process_webhook-terminal :
    (around : Surroundings) (id : String) (w : WebhookEvent) (s : Session)
    → webhook_by_id id s.tables ≡ some w
    → is_terminal w.status ≡ true
    → process_webhook around id s ≡ (ok [], s)
unfolding process_webhook process_found
process_webhook-terminal around id w s h e = rw (h, e) refl

-- Processing a stored webhook that needs it ends, whatever its payload holds and however its handler
-- fails, in one of two ways. Where the database refused a value in a flush of the handler, the call
-- raises the error of a session that waits for its rollback. In every other case no exception leaves
-- the call, the row under its id is processed, skipped or failed with one attempt more, and processing
-- it again does nothing.
pub process_webhook-Settled :
    (around : Surroundings) (id : String) (w : WebhookEvent) (s : Session)
    → webhook_by_id id s.tables ≡ some w
    → is_terminal w.status ≡ false
    → let (result, s') = process_webhook around id s in
      ((is_refused (handled around w s) ≡ true) × (result ≡ err pending_rollback))
      ⊎ ((is_refused (handled around w s) ≡ false)
          × (orgs : List ℕ) × (result ≡ ok orgs)
          × Settled id (w.processing_attempts + 1) s'.tables
          × (process_webhook around id s' ≡ (ok [], s')))
unfolding process_webhook process_found
process_webhook-Settled around id w s h e =
    let same : w.id ≡ id =
      (eq_iff w.id id).0 (find_row-holds (webhook_has_id id) s.tables.webhooks h) in
    let stored : webhook_by_id w.id s.tables ≡ some w =
      subst (λ i. webhook_by_id i s.tables ≡ some w) (sym same) h in
    let s' = (run_webhook around (begun w) s).1 in
    elim (Bool-cases (is_refused (handled around w s))) [
      | inl refused ↦ inl (refused, rw (h, e) (run_webhook-refused around w s refused))
      | inr accepted ↦
          let (orgs, result, settled) = run_webhook-Settled around w w s stored accepted in
          let (x, found, ended, attempts) = settled in
          let there : webhook_by_id id s'.tables ≡ some x =
            subst (λ i. webhook_by_id i s'.tables ≡ some x) same found in
          inr (
            rw (h, e)
              (
                accepted,
                orgs,
                result,
                (x, there, ended, attempts),
                process_webhook-terminal around id x s' there ended,
              ))
    ]

reset_webhook_lem :
    (w : WebhookEvent) (s : Session) (status : WebhookStatus)
    → w.status ≡ status
    → webhook_by_id w.id s.tables ≡ some w
    → is_done status ≡ false
    → let (result, s') = reset_webhook w s in
      (result ≡ ok tt)
      × (w' : WebhookEvent) × (webhook_by_id w.id s'.tables ≡ some w')
      × (is_terminal w'.status ≡ false)
      × (w'.processing_attempts ≡ w.processing_attempts)
unfolding reset_webhook save_webhook
reset_webhook_lem w s received same h e = rw same (refl, w, h, ap is_terminal same, refl)
reset_webhook_lem w s processing same h e = rw same (
  refl,
  _,
  find_row-update_rows (webhook_has_id w.id) (reset_row w) s.tables.webhooks (eq_refl w.id) h,
  refl,
  refl,
)
reset_webhook_lem w s failed same h e = rw same (
  refl,
  _,
  find_row-update_rows (webhook_has_id w.id) (reset_row w) s.tables.webhooks (eq_refl w.id) h,
  refl,
  refl,
)
reset_webhook_lem w s processed same h e = cc
reset_webhook_lem w s skipped same h e = cc

-- Replaying a stored webhook that was processed or skipped answers so and changes nothing. Replaying
-- any other one, failed or stuck ones included, processes its row once it is received again: it raises
-- if the processing raises, as it does where the database refused a value in a flush of the handler; in
-- every other case it answers that it was replayed, with the status that the row has then: processed,
-- skipped or failed, after one attempt more.
pub replay_webhook-Settled :
    (around : Surroundings) (w : WebhookEvent) (s : Session)
    → webhook_by_id w.id s.tables ≡ some w
    → let (result, s') = replay_webhook around w.id s in
      let again = (reset_webhook w s).1 in
      ((is_done w.status ≡ true)
        × (result
            ≡ ok (record {
              webhook_id = w.id;
              outcome = already_processed;
              status = w.status;
              orgs_to_invalidate = [];
            }))
        × (s' ≡ s))
      ⊎ ((is_done w.status ≡ false)
          × (w1 : WebhookEvent) × (webhook_by_id w.id again.tables ≡ some w1)
          × (is_refused (handled around w1 again) ≡ true)
          × (result ≡ err pending_rollback))
      ⊎ ((is_done w.status ≡ false)
          × (orgs : List ℕ) × (w' : WebhookEvent) × (webhook_by_id w.id s'.tables ≡ some w')
          × (is_terminal w'.status ≡ true)
          × (w'.processing_attempts ≡ w.processing_attempts + 1)
          × (result
              ≡ ok (record {
                webhook_id = w.id;
                outcome = replayed;
                status = w'.status;
                orgs_to_invalidate = orgs;
              })))
unfolding replay_webhook replay_found
replay_webhook-Settled around w s h = elim (Bool-cases (is_done w.status)) [
  | inl done ↦ inl (rw (h, done) (refl, refl, refl))
  | inr open' ↦
      let (reset, w1, found, pending, attempts1) = reset_webhook_lem w s w.status refl h open' in
      let t = (reset_webhook w s).1 in
      elim (process_webhook-Settled around w.id w1 t found pending) [
        | inl (refused, result) ↦
            inr (inl (open', w1, found, refused, rw (h, open', reset, result) refl))
        | inr (accepted, orgs, result, settled, again) ↦
            let (w2, there, ended, attempts2) = settled in
            inr (
              inr (
                rw (h, open', reset, result, there)
                  (refl, orgs, w2, there, ended, omega (arith, attempts1, attempts2), refl)))
      ]
]
