-- ===== src/Monitor.antt =====
-- backend/internal/monitor: the worker that runs checks, and the favicons of monitors with the
-- dialer that keeps their requests on the public network.
pub mod Worker
pub mod Network
pub mod Favicon
pub mod Validation
pub mod Controller
