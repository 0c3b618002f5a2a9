-- ===== src/Monitor/Controller.antt =====
-- backend/internal/monitor/controller.go and statistics.go: the handlers of monitors. The identity
-- of the caller, which Authenticate puts into the context, is an argument of each.
pub mod Cursor
pub mod Requests
pub mod Statistics
pub mod Handlers
