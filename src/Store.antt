-- ===== src/Store.antt =====
-- The database session: the rows that the services read and write, and the methods' monad.
-- An id (a UUID in the program) is a number; `next_id` is the one that the next insert draws, as
-- `gen_random_uuid()` never repeats. A point in time is a number too, and `now` is the clock that
-- a request reads. Rows of a table are kept newest first, those of `obligation_periods` oldest first.
pub mod Models
pub mod Obligations
pub mod Monad
pub mod Tables
pub mod Atomic
pub mod Ensures
