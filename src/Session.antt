-- ===== src/Session.antt =====
-- internal/core/session.go.
pub mod Manager
pub mod History
mod Examples
