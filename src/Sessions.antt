-- ===== src/Sessions.antt =====
-- src/services/sessions: what the server remembers of sessions.
pub mod Idempotency
pub mod Reconcile
pub mod Dedupe
pub mod Store
pub mod Rehydrate
pub mod Busy
