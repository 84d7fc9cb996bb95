-- ===== src/Ledger.antt =====
-- Events of the ledger: `LedgerRepository` (app/ledger/repository.py) and `LedgerService`
-- (app/ledger/service.py).
pub mod Insert
pub mod Effects
pub mod Balance
pub mod Reclassify
pub mod Relabel
pub mod Relabelled
