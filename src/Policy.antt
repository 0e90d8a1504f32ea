-- ===== src/Policy.antt =====
-- pkg/sharing/verify/policy.go.
pub mod Blocked
pub mod Rules
pub mod Registries
mod Examples
