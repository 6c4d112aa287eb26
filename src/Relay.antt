-- ===== src/Relay.antt =====
-- The outbox relay: src/billing_platform/outbox_relay/publisher.py and
-- src/billing_platform/outbox_relay/dlq_replay.py.
pub mod Envelope
pub mod Publish
pub mod Claims
pub mod Laws
pub mod Replay
pub mod Again
pub mod Ids
pub mod Histories
