-- ===== src/Transfers.antt =====
-- Transfers between two accounts of a user: `TransfersService` (app/transfers/service.py) over
-- `TransfersRepository` (app/transfers/repository.py).
pub mod Target
pub mod Fx
pub mod Create
pub mod Moves
pub mod Guards
pub mod Outcome
pub mod Books
pub mod Retry
pub mod Progress
