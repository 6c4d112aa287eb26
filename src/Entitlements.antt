-- ===== src/Entitlements.antt =====
-- Entitlement decisions: src/billing_platform/services/entitlements.py (the pure part) and the grace
-- window of src/billing_platform/services/grace.py.
pub mod Decide
pub mod Checks
pub mod Laws
pub mod Answers
