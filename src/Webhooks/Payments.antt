-- ===== src/Webhooks/Payments.antt =====
-- What an `invoice.paid` event does: `_handle_invoice_paid` of
-- src/billing_platform/services/webhook_processor.py.
use saas_billing_entitlement.Prelude.{
  ◌++◌, ℕ, ◌+◌, ◌≡◌, refl, ap, ◌∙◌, true, false, none, some, String, List, [], ◌∷◌, find_row,
  find_row-update_rows,
}
use saas_billing_entitlement.Prelude.Int.{ℤ}
use saas_billing_entitlement.Prelude.Text.{str_eq, eq_iff, eq_refl, ◌⧺◌}
use saas_billing_entitlement.Lifecycle.{active, transition}
use saas_billing_entitlement.Db.Json.{Fields, int, obj, get, get_field}
use saas_billing_entitlement.Db.Rows.{invoice_paid, WebhookEvent, Subscription, LedgerEntry, Tables}
use saas_billing_entitlement.Db.Session.{Session, ok, pure, ◌>>=◌, ◌>>◌}
use saas_billing_entitlement.Subscriptions.{
  illegal_text, subscription_by_id, subscription_has_id, stamped, save,
}
use saas_billing_entitlement.Subscriptions.Laws.{find-save}
use saas_billing_entitlement.Outbox.{message_has_key, is_enqueued}
use saas_billing_entitlement.Outbox.Laws.{outbox_after, enqueue_outbox_lem, any-outbox_after_self}
use saas_billing_entitlement.Ledger.{Posting, post, org_public_id, entry_by_key}
use saas_billing_entitlement.Ledger.Laws.{
  IsSound, Written, entry_of, post-fresh_Written, post-frame,
}
use saas_billing_entitlement.Grace.Laws.{IsSound-outbox, save-IsSound}
use saas_billing_entitlement.Webhooks.Handlers.{
  idem_base, post_held, post_payment, currency_of, payment, activated_fact, entered, nonempty_text,
  subscription_by_external_id, Surroundings, data_of, object_of, extract_data_object,
  find_subscription, load_subscription, transition_subscription, activate, handle_invoice_paid,
  dispatch_event,
}
use saas_billing_entitlement.Webhooks.Frame.{activate-Keeps}
use saas_billing_entitlement.Webhooks.Process.{
  webhook_has_id, webhook_by_id, is_terminal, begun, failed_row, processed_row, save_webhook,
  settle, run_webhook, process_found, process_webhook,
}

-- The payload of an event of a type names a subscription of the provider.
pub record Names (w : WebhookEvent) (event_type : String) (invoice : Fields) (id : String)
    : Type 0 where
  pub data_fields : Fields
  pub typed : w.event_type ≡ event_type
  pub has_data : get "data" w.payload ≡ some (obj data_fields)
  pub has_object : get_field "object" data_fields ≡ some (obj invoice)
  pub has_subscription : nonempty_text (get_field "subscription" invoice) ≡ some id

begun-Names :
    (w : WebhookEvent) {event_type id : String} {invoice : Fields}
    → Names w event_type invoice id
    → Names (begun w) event_type invoice id
begun-Names w n = record {
  data_fields = n.data_fields;
  typed = n.typed;
  has_data = n.has_data;
  has_object = n.has_object;
  has_subscription = n.has_subscription;
}

-- Up to the row that the payload names, the handler only reads.
dispatch-paid :
    (around : Surroundings) (w : WebhookEvent) (invoice : Fields) (id : String) (x : Subscription)
    → Names w "invoice.paid" invoice id
    → (s : Session) → subscription_by_external_id id s.tables ≡ some x
    → dispatch_event around w s ≡ (activate w invoice x >>= λ orgs. pure (some orgs)) s
unfolding dispatch_event handle_invoice_paid extract_data_object data_of object_of load_subscription
    find_subscription
dispatch-paid around w invoice id x n s h =
    let typed : str_eq w.event_type "invoice.paid" ≡ true = (eq_iff _ _).1 n.typed in
    rw (typed, n.has_data, n.has_object, n.has_subscription, h) refl

-- An event `invoice.paid` for a subscription that may not become active fails with the text of the
-- illegal transition: no subscription, no ledger entry and no message is written. So ends each renewal
-- payment of a subscription that is active.
pub invoice_paid-illegal :
    (around : Surroundings) (w : WebhookEvent) (invoice : Fields) (id : String) (x : Subscription)
    → Names w "invoice.paid" invoice id
    → (s : Session) → subscription_by_external_id id s.tables ≡ some x
    → webhook_by_id w.id s.tables ≡ some w
    → is_terminal w.status ≡ false
    → transition x.status active ≡ none
    → let s' = (process_webhook around w.id s).1 in
      let row = failed_row (begun w) (illegal_text x.status active) in
      (webhook_by_id w.id s'.tables ≡ some row)
      × (s'.tables.subscriptions ≡ s.tables.subscriptions)
      × (s'.tables.ledger ≡ s.tables.ledger)
      × (s'.tables.outbox ≡ s.tables.outbox)
unfolding process_webhook process_found run_webhook save_webhook settle activate
    transition_subscription
invoice_paid-illegal around w invoice id x n s h there pending illegal =
    let t = (save_webhook (begun w) s).1 in
    let n' = begun-Names w n in
    rw (there, pending, dispatch-paid around (begun w) invoice id x n' t h, illegal)
      (
        find_row-update_rows (webhook_has_id w.id) _ _ (eq_refl w.id) (
            find_row-update_rows (webhook_has_id w.id) (begun w) s.tables.webhooks (eq_refl w.id)
              there),
        refl,
        refl,
        refl,
      )

-- What a payment of an amount has written: the subscription active, one more row of the ledger, and the
-- event.
pub record Recorded (w : WebhookEvent) (x : Subscription) (amount : ℤ) (t t' : Tables)
    : Type 0 where
  pub subscription : Subscription
  pub saved : subscription_by_id x.id t' ≡ some subscription
  pub is_active : (subscription.status ≡ active) × (subscription.past_due_entered_at ≡ none)
  pub entry : LedgerEntry
  pub of_amount : entry.amount_cents ≡ amount
  pub of_type : entry.entry_type ≡ invoice_paid
  pub of_owner : (entry.organization_id ≡ x.organization_id) × (entry.subscription_id ≡ some x.id)
  pub written : Written (("webhook:" ⧺ w.id) ⧺ ":ledger:invoice_paid") t entry t'
  pub is_new : t'.ledger ≡ t.ledger ++ entry ∷ []
  pub announced : is_enqueued (("webhook:" ⧺ w.id) ⧺ ":subscription.activated") t' ≡ true

payment-is_held :
    (p : Posting) (s : Session)
    → s.host.columns_hold (s.host.upper p.currency) p.amount_cents ≡ true
    → post_payment p none s ≡ (post p >> pure tt) s
unfolding post_payment post_held
payment-is_held p s held = rw held refl

activate-Recorded :
    (w : WebhookEvent) (invoice : Fields) (x : Subscription) (s : Session) (org : String)
    (amount : ℤ)
    → get_field "amount_paid" invoice ≡ some (int amount)
    → s.host.columns_hold (s.host.upper (currency_of s.host (get_field "currency" invoice))) amount
      ≡ true
    → IsSound s.tables
    → subscription_by_id x.id s.tables ≡ some x
    → transition x.status active ≡ some active
    → org_public_id x.organization_id s.tables ≡ some org
    → entry_by_key (idem_base w ⧺ ":ledger:invoice_paid") s.tables ≡ none
    → ((activate w invoice x s).0 ≡ ok (x.organization_id ∷ []))
      × Recorded w x amount s.tables (activate w invoice x s).1.tables
unfolding activate transition_subscription payment activated_fact save
activate-Recorded w invoice x s org amount paid held h there legal known fresh =
    let y = entered x active (s.host.clock s.readings) in
    let s1 = (save y (record s { readings = s.readings + 1 })).1 in
    let f = activated_fact w y org in
    let s2 : Session = record s1 {
      tables = record s1.tables { outbox = outbox_after f s1 };
      next_id = s1.next_id + 1;
    } in
    let p = payment w y s.host invoice in
    let (done, written, kept) =
      post-fresh_Written p s2 org
        (IsSound-outbox f s1 (save-IsSound y (record s { readings = s.readings + 1 }) h)) fresh
        known in
    let same : (post p s2).1.tables.subscriptions ≡ s1.tables.subscriptions =
      ap (λ (t : Session). t.tables.subscriptions) (post-frame p s2) in
    rw (legal, known, enqueue_outbox_lem, fresh, payment-is_held p s2 (rw paid held), done)
      (
        refl,
        record {
          subscription = stamped y s.transaction_time;
          saved =
              ap (find_row (subscription_has_id x.id)) same
              ∙ find-save x.id (stamped y s.transaction_time) s.tables.subscriptions refl there;
          is_active = (refl, refl);
          entry = entry_of p s2;
          of_amount = rw paid refl;
          of_type = refl;
          of_owner = (refl, refl);
          is_new = written.appended ∙ rw fresh refl;
          written = record {
            sound = written.sound;
            stored = written.stored;
            appended = written.appended;
          };
          announced = kept (message_has_key f.idempotency_key) (any-outbox_after_self f s1);
        },
      )

-- It says nothing of the webhooks.
Recorded-webhooks :
    {w : WebhookEvent} {x : Subscription} {amount : ℤ} {t t' : Tables} (xs ys : List WebhookEvent)
    → Recorded (begun w) x amount (record t { webhooks = xs }) t'
    → Recorded w x amount t (record t' { webhooks = ys })
Recorded-webhooks xs ys h = record {
  subscription = h.subscription;
  saved = h.saved;
  is_active = h.is_active;
  entry = h.entry;
  of_amount = h.of_amount;
  of_type = h.of_type;
  of_owner = h.of_owner;
  is_new = h.is_new;
  written = record {
    sound = record { unique = h.written.sound.unique; announced = h.written.sound.announced };
    stored = h.written.stored;
    appended = h.written.appended;
  };
  announced = h.announced;
}

-- An event `invoice.paid` for a subscription that may become active, of a known organization, is
-- processed: the subscription is active and no longer overdue, the ledger has one row more, of the
-- subscription, under the webhook's key and with the value of the invoice's `amount_paid`, and the
-- outbox holds the event of the activation. This is for an amount and a currency that the columns can
-- hold, a webhook that was never posted, and tables in which no ledger key stands twice and every
-- entry's event is in the outbox.
pub invoice_paid-Recorded :
    (around : Surroundings) (w : WebhookEvent) (invoice : Fields) (id : String) (x : Subscription)
    (org : String) (amount : ℤ)
    → Names w "invoice.paid" invoice id
    → get_field "amount_paid" invoice ≡ some (int amount)
    → (s : Session)
    → s.host.columns_hold (s.host.upper (currency_of s.host (get_field "currency" invoice))) amount
      ≡ true
    → subscription_by_external_id id s.tables ≡ some x
    → subscription_by_id x.id s.tables ≡ some x
    → webhook_by_id w.id s.tables ≡ some w
    → is_terminal w.status ≡ false
    → transition x.status active ≡ some active
    → org_public_id x.organization_id s.tables ≡ some org
    → entry_by_key (("webhook:" ⧺ w.id) ⧺ ":ledger:invoice_paid") s.tables ≡ none
    → IsSound s.tables
    → let (result, s') = process_webhook around w.id s in
      (result ≡ ok (x.organization_id ∷ []))
      × (now : ℕ) × (webhook_by_id w.id s'.tables ≡ some (processed_row (begun w) now))
      × Recorded w x amount s.tables s'.tables
unfolding process_webhook process_found run_webhook save_webhook settle
invoice_paid-Recorded around w invoice id x org amount n has_amount s held h there stored pending
      legal known fresh sound =
    let t = (save_webhook (begun w) s).1 in
    let n' = begun-Names w n in
    let (done, paid) =
      activate-Recorded (begun w) invoice x t org amount has_amount held
        (record { unique = sound.unique; announced = sound.announced }) there legal known fresh in
    let t' = (activate (begun w) invoice x t).1 in
    let kept : webhook_by_id w.id t'.tables ≡ some (begun w) =
      ap (find_row (webhook_has_id w.id)) ((activate-Keeps (begun w) invoice x).at t)
      ∙ find_row-update_rows (webhook_has_id w.id) (begun w) s.tables.webhooks (eq_refl w.id)
          stored in
    rw (stored, pending, dispatch-paid around (begun w) invoice id x n' t h, done)
      (
        refl,
        t'.host.clock t'.readings,
        find_row-update_rows (webhook_has_id w.id) _ t'.tables.webhooks (eq_refl w.id) kept,
        Recorded-webhooks _ _ paid,
      )
