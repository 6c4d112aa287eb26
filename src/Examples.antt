-- ===== src/Examples.antt =====
-- The theorems at concrete inputs, and runs of the operations.
mod Data
mod Money
mod Access
mod Jobs
mod Runs
mod Webhooks
mod Relay
mod Usage
mod Catalog
mod Limits
