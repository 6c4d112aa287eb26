-- ===== src/Reconciliation.antt =====
-- Reconciliation: src/billing_platform/services/reconciliation.py, and `should_alert_recon_mismatch` of
-- src/billing_platform/observability/alerts.py.
pub mod Compare
pub mod Totals
pub mod Run
pub mod Laws
pub mod Frame
