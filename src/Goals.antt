-- ===== src/Goals.antt =====
-- Goals (app/goals): what they reserve on an account.
pub mod Reserves
