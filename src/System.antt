-- ===== src/System.antt =====
-- The services together: the commands that move money, their runs, and the abstract book.
pub mod Book
pub mod Commands
pub mod Runs
pub mod Targets
pub mod Refinement
