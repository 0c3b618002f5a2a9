-- ===== src/Http.antt =====
-- backend/internal/httpx: the middleware in front of every handler of the API, and what handlers
-- write.
pub mod Protect
pub mod Reply
