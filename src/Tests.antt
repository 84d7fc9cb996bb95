-- ===== src/Tests.antt =====
-- Runs of the model on concrete data, and the theorems applied to them.
mod Accounts
mod Cash
mod Debts
mod Fixtures
mod Parts
mod Payments
mod Periods
mod Relabel
mod Settlement
mod Sync
mod System
mod Transfers
mod Closing
mod Plans
