-- ===== src/Cash.antt =====
-- Cash income and expense: `CashService` (app/cash/service.py).
pub mod Operations
pub mod Blocks
pub mod Books
