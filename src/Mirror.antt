-- ===== src/Mirror.antt =====
-- cmd/zhi-mirror/server/policy.go.
pub mod Rules
pub mod Checked
mod Examples
