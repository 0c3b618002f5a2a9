-- ===== src/Auth.antt =====
-- backend/internal/auth: the admission gate for password work, credentials and tokens, and the
-- sessions behind registration, sign-in and refresh, with their HTTP handlers.
pub mod Gate
pub mod Crypto
pub mod Service
pub mod Controller
