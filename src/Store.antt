-- ===== src/Store.antt =====
-- backend/internal/store: the rows of the database, its statements, and the transactions of the
-- program over them.
pub mod Rows
pub mod Exec
pub mod Schedule
pub mod History
pub mod Statuses
pub mod Checks
pub mod Accounts
pub mod Monitors
mod Tests
