-- ===== src/Obligations.antt =====
-- Recurring obligations (app/obligations).
pub mod Allocation
pub mod Fingerprint
pub mod Lifecycle
pub mod Outcome
pub mod Paid
pub mod PaymentBooks
pub mod PaymentRetry
pub mod Payments
pub mod Payment
pub mod Pays
pub mod Periods
pub mod Retries
pub mod Resync
pub mod Search
pub mod Settled
pub mod Settlement
pub mod Settling
pub mod Slices
pub mod SpecificPayment
pub mod Status
pub mod Sync
pub mod Synced
pub mod Transitions
pub mod Written
pub mod Closing
pub mod Closed
pub mod Batch
pub mod Quoted
