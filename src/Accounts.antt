-- ===== src/Accounts.antt =====
-- The bank and wallet accounts of a user: app/accounts.
pub mod Repository
pub mod Effects
pub mod Service
pub mod Adjustment
pub mod Opening
pub mod Adjusted
