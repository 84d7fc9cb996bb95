-- ===== src/Credit.antt =====
-- Credit cards (app/credit).
pub mod CycleDates
pub mod CycleOrder
pub mod Installments
pub mod Limits
pub mod Waterfall
pub mod Plan
pub mod Planned
