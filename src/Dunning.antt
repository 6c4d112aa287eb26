-- ===== src/Dunning.antt =====
-- Dunning campaigns: src/billing_platform/services/dunning.py, with the unique indexes of
-- alembic/versions/20260216_0015_dunning_campaigns.py.
pub mod Campaigns
pub mod Attempts
pub mod Laws
pub mod Execution
pub mod Starting
pub mod Outcome
pub mod Frame
