-- ===== src/Platform.antt =====
-- backend/src/postbase/platform, and the database session that all of it runs in.
pub mod Errors
pub mod Exec
pub mod Session
pub mod Audit
pub mod Registry
pub mod Idempotency
