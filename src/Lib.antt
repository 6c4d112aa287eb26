-- ===== src/Lib.antt =====
-- A model of the billing and entitlement platform in src/billing_platform, with the theorems that make
-- its services correct.
--
-- The program. HTTP handlers and Celery tasks open a database session and call the services; a service
-- reads and writes the tables, posts to the ledger, and enqueues a domain event in the outbox, all in
-- the caller's transaction. Subscriptions move through a lifecycle; entitlement decisions read a
-- snapshot of it; overdue subscriptions get a grace window, a dunning campaign, and in the end lose
-- their access; a daily job compares the invoices with those of the payment provider. Webhooks of the
-- provider are stored once and processed idempotently; a relay publishes the outbox to Kafka, with dead
-- letters for messages that fail too often; usage is summed by the hour, and billed when a period closes.
--
-- The files, with paths below src/billing_platform.
--   Lifecycle       domain/state_machines/subscription.py: `transition`; Reach has the diagram of
--                   spec.md as a relation, and runs.
--   Entitlements    services/entitlements.py: Decide has `decide_feature`, `decide_access` and the grace
--                   predicate of services/grace.py, Checks `_evaluate_checks`; Laws and Answers prove.
--   Db              Rows and CatalogRows have the tables of domain/models, Json the values of JSONB
--                   columns, Session the database session that all services share, Keeps what an
--                   action leaves alone, with rules for search.
--   Outbox          services/outbox.py and outbox_hooks.py: `enqueue`.
--   Ledger          services/ledger.py: `LedgerService.post` and `reverse`.
--   Invoices        services/invoices.py: `create_draft_invoice`, `add_line_item`; Totals proves the sums.
--   Subscriptions   services/subscriptions.py: creating, cancelling, the primary subscription;
--                   Creation and Laws prove.
--   PlanChange      services/plan_change.py: `change_plan`.
--   Grace           services/grace.py: `enforce_grace_expiry`.
--   Dunning         services/dunning.py: Campaigns has starting, pausing and resuming, Attempts the
--                   execution; Laws, Outcome, Starting and Execution prove.
--   Reconciliation  services/reconciliation.py: Compare has the comparison with the provider,
--                   Totals that with the ledger, Run the run; Laws and Frame prove.
--   Webhooks        services/webhooks.py: `persist_webhook`, `replay_webhook`, and
--                   services/webhook_processor.py: Handlers has `_dispatch_event`, Process
--                   `process_webhook`; Frame, Laws and Payments prove.
--   Relay           outbox_relay: Envelope and Publish have publisher.py, Replay dlq_replay.py; Claims,
--                   Laws, Again, Ids and Histories prove.
--   Usage           services/usage.py: `aggregate_hour`, `aggregate_pending_hours`, and in Ingest
--                   `ingest_usage_batch`; Laws and Once prove.
--   PeriodClose     services/period_close.py: `close_billing_period`; Laws, Charging and Closing prove.
--   Catalog         services/catalog.py: the operations that write; Frame, Published and Versions prove.
--   RateLimit       services/rate_limit.py: `check_rate_limit`; Laws proves.
--   Prelude         lists, integers, texts and tests that all of these share.
--   Examples        the theorems at concrete inputs, and runs.
--
-- How state is modelled. A `Session` holds the tables as it sees them, those committed, and counters; an
-- operation is a function from a session to a result and the session after, so an exception keeps what
-- was written before it, as the code does until its caller rolls back. A table is a list of rows in the
-- order of insertion. Instants are microseconds, UUIDs their texts, a status its enumeration. All
-- identity columns draw from one sequence. UUIDs, the clock and the texts of instants come from a `Host`,
-- a parameter: a theorem that needs a new UUID to be new says so. The answers of the payment provider are
-- arguments. What other transactions commit between a lookup and an insertion is a list of rival rows, and a
-- unique index is a second look at the key where the row is flushed. An `IntegrityError` then leads
-- where the code's `except` leads. The producer of the relay is a function of all that it was sent before,
-- and the relay keeps what it sent beside the session; the commands of Redis that the rate limit calls are
-- a parameter; rows that another replica has locked are a test.
--
-- What the database refuses. A new invoice is refused for its key and its foreign keys, a subscription and
-- a campaign for their keys. For a payment that a webhook reports, the `Host` says which currencies and
-- amounts the columns of the ledger hold; any other ends in a `DataError`, after which the session raises
-- until it is rolled back, so that `process_webhook` cannot mark the row as failed. Elsewhere foreign keys
-- and widths are not modelled, nor in `post`, `ingest_usage_batch` and `aggregate_hour` an insertion of
-- another transaction under the same key.
--
-- Bounds. Amounts are integers without a width, as in Python; every one fits its column but for those above.
-- Every loop runs over a list; only the decimal text of a number runs on fuel, and one more than the
-- number is enough.
--
-- Not modelled. Row locks other than those the relay skips, metrics, logs, HTTP, Redis, Celery and the
-- engine. The partitions of usage events, the building of entitlement snapshots,
-- organizations and API keys have no model here.
pub mod Prelude
pub mod Lifecycle
pub mod Entitlements
pub mod Db
pub mod Outbox
pub mod Ledger
pub mod Invoices
pub mod Subscriptions
pub mod PlanChange
pub mod Grace
pub mod Reconciliation
pub mod Dunning
pub mod Webhooks
pub mod Relay
pub mod Usage
pub mod PeriodClose
pub mod Catalog
pub mod RateLimit
pub mod Examples
