-- ===== src/Webhooks.antt =====
-- Webhooks of the payment provider: src/billing_platform/services/webhooks.py and
-- src/billing_platform/services/webhook_processor.py.
pub mod Handlers
pub mod Process
pub mod Frame
pub mod Laws
pub mod Payments
